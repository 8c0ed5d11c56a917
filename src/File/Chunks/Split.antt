-- ===== src/File/Chunks/Split.antt =====
-- What `SplitFile` of internal/file/chunk.go returns, and that `MergeChunks` undoes it.
use native.Mathlib.Nat.{div-add-mod', mod-lt, mul-div_cancel, div-lt_iff_lt-mul}
use native.Mathlib.Decide.{dec_le}
use t_chat.Base.{
  ℕ, zero, suc, ◌+◌, ◌-◌, ◌*◌, ◌/◌, ◌≤◌, ◌<◌, ◌≡◌, ap, sym, ◌∙◌, true, false, none, some, List, [],
  ◌∷◌, Bytes, arith, eqb, lt→ltb, length, min, take, drop, take_all, take-add, length-take,
  length-drop, drop_all, append-nil,
}
use t_chat.File.Disk.{read_at, write_at}
use t_chat.File.Chunks.{
  Chunk, Source, ok, make_chunk, split_from, split_file, merge_into, merge_chunks,
}

-- `(total + chunk_size - 1) / chunk_size`, as `SendFile` and `GetProgress` compute it.
unfoldable pub chunk_count : ℕ → ℕ → ℕ
chunk_count total chunk_size = (total + chunk_size - 1) / chunk_size

-- Rounded up: so many chunks cover the file, and one less does not.
pub chunk_count_bounds :
    (total chunk_size : ℕ)
    → 0 < chunk_size
    → (total ≤ chunk_count total chunk_size * chunk_size)
      × (chunk_count total chunk_size * chunk_size < total + chunk_size)
unfolding chunk_count
chunk_count_bounds total chunk_size h =
    omega
      (arith, div-add-mod' (total + chunk_size - 1) chunk_size, mod-lt (total + chunk_size - 1) h)

-- The chunk with a given index, and a run of chunks.
abbrev pub chunk_at : (Bytes → Bytes) → Bytes → ℕ → ℕ → Chunk
chunk_at sha256 content chunk_size i =
    make_chunk sha256 i (i * chunk_size) (read_at chunk_size (i * chunk_size) content)

unfoldable pub chunks_from : (Bytes → Bytes) → Bytes → ℕ → ℕ → ℕ → List Chunk
chunks_from sha256 content chunk_size i zero = []
chunks_from sha256 content chunk_size i (suc k) =
    chunk_at sha256 content chunk_size i ∷ chunks_from sha256 content chunk_size (suc i) k

take-min : (n m : ℕ) (xs : Bytes) → length xs ≡ m → take (min n m) xs ≡ take n xs
take-min n m xs h = elim (dec_le n m) [
  | yes p ↦ ap (λ (k : ℕ). take k xs) (omega arith)
  | no p ↦ take_all (min n m) xs (omega arith) ∙ sym (take_all n xs (omega arith))
]

-- Reading up to the end of the file is reading a whole chunk.
read_to_end :
    (n offset : ℕ) (content : Bytes)
    → read_at (min (offset + n) (length content) - offset) offset content ≡ read_at n offset content
unfolding read_at
read_to_end n offset content =
    ap (λ (k : ℕ). take k (drop offset content)) {y = min n (length content - offset)} (omega arith)
    ∙ take-min n (length content - offset) (drop offset content) (length-drop offset content)

-- `k` more chunks from number `i` on reach the end of the file, and no fewer do.
record Left (total chunk_size i k : ℕ) : Type 0 where
  reach : total ≤ (i + k) * chunk_size
  needed : (i + k) * chunk_size < total + chunk_size

split_from_lem :
    (sha256 : Bytes → Bytes) (f : Source) (chunk_size k fuel i : ℕ)
    → 0 < chunk_size
    → k < fuel
    → ((offset : ℕ) → f.reads_ok offset ≡ true)
    → Left (length f.content) chunk_size i k
    → split_from sha256 f chunk_size fuel (i * chunk_size)
      ≡ some (ok (chunks_from sha256 f.content chunk_size i k))
unfolding split_from chunks_from
split_from_lem sha256 f chunk_size k zero i pos hf reads l = absurd (omega arith)
split_from_lem sha256 f chunk_size zero (suc fuel) i pos hf reads l = ground arith
split_from_lem sha256 f chunk_size (suc k) (suc fuel) i pos hf reads l =
    let next : split_from sha256 f chunk_size fuel (i * chunk_size + chunk_size)
        ≡ some (ok (chunks_from sha256 f.content chunk_size (suc i) k)) =
      ap (split_from sha256 f chunk_size fuel) {y = suc i * chunk_size} (omega arith)
      ∙ split_from_lem sha256 f chunk_size k fuel (suc i) pos (omega arith) reads
          (record { reach = omega arith; needed = omega arith }) in
    rw (
      lt→ltb (i * chunk_size) (length f.content) (omega arith),
      positive,
      reads (i * chunk_size),
      mul-div_cancel i pos,
      read_to_end chunk_size (i * chunk_size) f.content,
      next,
    )
  where
    positive : eqb chunk_size 0 ≡ false
    positive = ground arith

le-mul_pos : (a b : ℕ) → 0 < b → a ≤ a * b
le-mul_pos zero b h = omega arith
le-mul_pos (suc a) b h = omega (arith, le-mul_pos a b h)

chunk_count_le : (total chunk_size : ℕ) → 0 < chunk_size → chunk_count total chunk_size ≤ total
unfolding chunk_count
chunk_count_le total chunk_size h = omega (
  arith,
  (div-lt_iff_lt-mul {x = total + chunk_size - 1} {y = total + 1} h).1
      (omega (arith, le-mul_pos total chunk_size h)),
)

-- If the file can be read, `SplitFile` returns the chunks 0, 1, … up to the rounded-up number of
-- chunks: chunk `i` holds the bytes from `i * chunk_size` on, as many as there are up to the
-- chunk size, and their SHA-256.
pub split_file_lem :
    (sha256 : Bytes → Bytes) (f : Source) (chunk_size : ℕ)
    → 0 < chunk_size
    → f.can_open ≡ true
    → f.can_stat ≡ true
    → ((offset : ℕ) → f.reads_ok offset ≡ true)
    → split_file sha256 f chunk_size
      ≡ some (
          ok
            (chunks_from sha256 f.content chunk_size 0 (chunk_count (length f.content) chunk_size)))
unfolding split_file
split_file_lem sha256 f chunk_size pos opens stats reads =
    rw (opens, stats)
      (ap (split_from sha256 f chunk_size (suc (length f.content))) {x = 0} {y = 0 * chunk_size}
          (omega arith)
        ∙ split_from_lem sha256 f chunk_size (chunk_count (length f.content) chunk_size)
            (suc (length f.content)) 0 pos
            (omega (arith, chunk_count_le (length f.content) chunk_size pos)) reads
            (record {
              reach = omega (arith, chunk_count_bounds (length f.content) chunk_size pos);
              needed = omega (arith, chunk_count_bounds (length f.content) chunk_size pos);
            }))

-- Appending the next piece of the content.
pub write_at-take :
    (content : Bytes) (offset n : ℕ)
    → offset ≤ length content
    → write_at (read_at n offset content) offset (take offset content) ≡ take (offset + n) content
unfolding write_at read_at
write_at-take content offset n h =
    rw
      (
        take_all offset (take offset content) short,
        full,
        drop_all (offset + length (take n (drop offset content))) (take offset content)
            (omega (arith, short)),
        append-nil,
      )
      (take-add offset n content)
  where
    short : length (take offset content) ≤ offset
    short = omega (arith, length-take offset content)

    full : offset - length (take offset content) ≡ 0
    full = omega (arith, length-take offset content)

merge_into_lem :
    (sha256 : Bytes → Bytes) (content : Bytes) (chunk_size i k : ℕ)
    → Left (length content) chunk_size i k
    → merge_into
        (λ _. true)
        (take (i * chunk_size) content)
        (chunks_from sha256 content chunk_size i k)
      ≡ (content, none)
unfolding merge_into chunks_from make_chunk
merge_into_lem sha256 content chunk_size i zero l =
    ap (λ c. (c, none)) (take_all (i * chunk_size) content (omega arith))
merge_into_lem sha256 content chunk_size i (suc k) l =
    rw (write_at-take content (i * chunk_size) chunk_size (omega arith), ← next_offset)
      (merge_into_lem sha256 content chunk_size (suc i) k
        (record { reach = omega arith; needed = omega arith }))
  where
    next_offset : suc i * chunk_size ≡ i * chunk_size + chunk_size
    next_offset = omega arith

-- Splitting a readable file and merging the chunks into a new file gives the content back, when the
-- new file can be created and every write to it succeeds.
pub merge_chunks-split_file :
    (sha256 : Bytes → Bytes) (f : Source) (chunk_size : ℕ) (before : Bytes)
    → 0 < chunk_size
    → f.can_open ≡ true
    → f.can_stat ≡ true
    → ((offset : ℕ) → f.reads_ok offset ≡ true)
    → (chunks : List Chunk) × (split_file sha256 f chunk_size ≡ some (ok chunks))
      × (merge_chunks true (λ _. true) before chunks ≡ (f.content, none))
unfolding merge_chunks
merge_chunks-split_file sha256 f chunk_size before pos opens stats reads = (
  chunks_from sha256 f.content chunk_size 0 (chunk_count (length f.content) chunk_size),
  split_file_lem sha256 f chunk_size pos opens stats reads,
  ap
        (λ (n : ℕ).
          merge_into (λ _. true) (take n f.content)
            (chunks_from sha256 f.content chunk_size 0 (chunk_count (length f.content) chunk_size)))
        {x = 0} {y = 0 * chunk_size} (omega arith)
      ∙ merge_into_lem sha256 f.content chunk_size 0 (chunk_count (length f.content) chunk_size)
          (record {
            reach = omega (arith, chunk_count_bounds (length f.content) chunk_size pos);
            needed = omega (arith, chunk_count_bounds (length f.content) chunk_size pos);
          }),
)
