-- ===== src/File/Manager/Names.antt =====
-- What SaveFile of internal/file/manager.go leaves: the name it finds, and what it writes.
use text.Mathlib.TextLemmas.{append_cancel_left, append_cancel_right}
use t_chat.Base.{
  ℕ, zero, suc, ◌+◌, ◌≤◌, ◌<◌, ◌≡◌, ◌≢◌, refl, sym, none, some, [], ◌∷◌, String, string_comparable,
  ◌==◌, leb, GoMap, lookup, remove, length, arith, Bool-cases, Option-cases, inl, inr,
  lookup-remove, leb→le, eq→≡,
}
use t_chat.File.Manager.{Libraries, FileInfo, numbered, next_name, generate_unique_name}

length-remove-le : {V : Type 0} (k : String) (m : GoMap String V) → length (remove k m) ≤ length m
unfolding remove
length-remove-le k [] = omega arith
length-remove-le k ((j, v) ∷ m) = ground (arith, length-remove-le k m)

length-remove-lt :
    {V : Type 0} (k : String) (m : GoMap String V)
    → lookup k m ≢ none
    → length (remove k m) < length m
unfolding remove lookup
length-remove-lt k [] h = absurd (h refl)
length-remove-lt k ((j, v) ∷ m) h = elim (Bool-cases (j == k)) [
  | inl same ↦ rw same (omega (arith, length-remove-le k m))
  | inr other ↦ rw other (omega (arith, length-remove-lt k m (rw other at h)))
]

-- A map that has `k` different names of a family has at least `k` entries.
names-le-length :
    {V : Type 0} (name : ℕ → String) (k i : ℕ) (m : GoMap String V)
    → ((a b : ℕ) → name a ≡ name b → a ≡ b)
    → ((j : ℕ) → i ≤ j → j < i + k → lookup (name j) m ≢ none)
    → k ≤ length m
names-le-length name zero i m distinct h = omega arith
names-le-length name (suc k) i m distinct h = omega (
  arith,
  length-remove-lt (name i) m (h i (omega arith) (omega arith)),
  names-le-length name k (suc i) (remove (name i) m) distinct
      (λ j lo hi e. h j (omega arith) (omega arith) (kept j lo e)),
)
  where
    kept :
        (j : ℕ) → suc i ≤ j → lookup (name j) (remove (name i) m) ≡ none → lookup (name j) m ≡ none
    kept j lo e = elim (Bool-cases (name i == name j)) [
      | inl same ↦
          let equal : i ≡ j = distinct i j (eq→≡ (name i) (name j) same) in absurd (omega arith)
      | inr other ↦ rw (lookup-remove (name i) (name j) m, other) at e
    ]

module _ (lib : Libraries) (original : String) (files : GoMap String FileInfo) where
  -- The name is not taken.
  next_name-lookup :
      (n counter : ℕ) (name : String) {found : String}
      → next_name lib n counter original name files ≡ some found
      → lookup found files ≡ none
  unfolding next_name
  next_name-lookup zero counter name h = absurd (let e : some _ ≡ none = sym h in cc)
  next_name-lookup (suc n) counter name {found} h = elim (Option-cases (lookup name files)) [
    | inl free ↦
        let e : some name ≡ some found = rw (free, next_name) at h in ground (arith, e, free)
    | inr (info, taken) ↦
        next_name-lookup n (suc counter) (numbered lib original counter)
          (rw (taken, next_name) at h)
  ]

  -- When the loop runs out of rounds, all names that it has tried are taken.
  next_name-none :
      (n counter : ℕ)
      → next_name lib n (suc counter) original (numbered lib original counter) files ≡ none
      → (j : ℕ) → counter ≤ j
      → j < counter + n
      → lookup (numbered lib original j) files ≢ none
  unfolding next_name
  next_name-none zero counter h j lo hi = absurd (omega arith)
  next_name-none (suc n) counter h j lo hi =
      elim (Option-cases (lookup (numbered lib original counter) files)) [
        | inl free ↦ absurd (let e : some _ ≡ none = rw (free, next_name) at h in cc)
        | inr (info, taken) ↦ elim (Bool-cases (leb j counter)) [
          | inl here ↦
              let same : j ≡ counter = omega (arith, leb→le j counter here) in
              rw (same, taken) (λ e. absurd (let f : some info ≡ none = e in cc))
          | inr later ↦
              next_name-none n (suc counter) (rw (taken, next_name) at h) j (ground (arith, later))
                (omega arith)
        ]
      ]

generate_unique_name-lookup :
    (lib : Libraries) (fuel : ℕ) (original : String) (files : GoMap String FileInfo)
    {unique : String}
    → generate_unique_name lib fuel original files ≡ some unique
    → lookup unique files ≡ none
unfolding generate_unique_name
generate_unique_name-lookup lib fuel original files h =
    next_name-lookup lib original files fuel 1 original h

-- The numbers make the names differ.
numbered_distinct :
    (lib : Libraries) (name : String)
    → ((a b : ℕ) → lib.decimal a ≡ lib.decimal b → a ≡ b)
    → (a b : ℕ) → numbered lib name a ≡ numbered lib name b
    → a ≡ b
unfolding numbered
numbered_distinct lib name distinct a b e =
    let (base, ext) = lib.split_ext name in
    distinct a b (
      append_cancel_right (lib.decimal a) (lib.decimal b) ext
        (append_cancel_left "_" _ _ (append_cancel_left base _ _ e)))

-- One round more than there are files, besides the first, is enough.
generate_unique_name-none :
    (lib : Libraries) (original : String) (files : GoMap String FileInfo)
    → ((a b : ℕ) → lib.decimal a ≡ lib.decimal b → a ≡ b)
    → generate_unique_name lib (suc (suc (length files))) original files ≢ none
unfolding generate_unique_name next_name
generate_unique_name-none lib original files distinct h =
    elim (Option-cases (lookup original files)) [
      | inl free ↦ absurd (let e : some original ≡ none = rw (free, next_name) at h in cc)
      | inr (info, taken) ↦
          let tried =
            next_name-none lib original files (suc (length files)) 1 (rw (taken, next_name) at h) in
          let many =
            names-le-length (numbered lib original) (suc (length files)) 1 files
              (numbered_distinct lib original distinct) tried in
          absurd (omega (arith, many))
    ]

-- The loop for the name ends: with numbers that are printed differently, a name that no file has is found after
-- at most two rounds more than there are files.
pub generate_unique_name-free :
    (lib : Libraries) (original : String) (files : GoMap String FileInfo)
    → ((a b : ℕ) → lib.decimal a ≡ lib.decimal b → a ≡ b)
    → (unique : String) × (generate_unique_name lib (suc (suc (length files))) original files
        ≡ some unique)
      × (lookup unique files ≡ none)
generate_unique_name-free lib original files distinct =
    elim (Option-cases (generate_unique_name lib (suc (suc (length files))) original files)) [
      | inl missing ↦ absurd (generate_unique_name-none lib original files distinct missing)
      | inr (unique, e) ↦ (unique, e, generate_unique_name-lookup lib _ original files e)
    ]
