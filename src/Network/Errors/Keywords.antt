-- ===== src/Network/Errors/Keywords.antt =====
-- The search for keywords in a message: `contains` of internal/network/error_handler.go.
use Prim.Native.Char.{code}
use t_chat.Base.{
  ℕ, zero, suc, ◌+◌, ◌-◌, ◌≤◌, ◌≡◌, ◌↔◌, ◌⊎◌, inl, inr, refl, sym, ap, ◌∙◌, Bool, true, false, List,
  [], ◌∷◌, ◌++◌, String, Bytes, bytes_eq, bytes_eq_iff, leb, if◌then◌else◌, length, take, drop,
  take-append-drop, take-append_left, drop-append_left, length-append, arith, Bool-cases,
}

-- The bytes of a text of ASCII characters.
abbrev pub codes : String → Bytes
codes String.[] = []
codes (String.◌∷◌ c s) = code c ∷ codes s

-- The inner loop: the offset `i`, and the number of offsets that are left.
unfoldable pub found_from : ℕ → ℕ → Bytes → Bytes → Bool
found_from zero i text keyword = false
found_from (suc n) i text keyword =
    if bytes_eq (take (length keyword) (drop i text)) keyword
    then true
    else found_from n (suc i) text keyword

unfoldable pub contains : Bytes → List Bytes → Bool
contains text [] = false
contains text (keyword ∷ keywords) =
    if leb (length keyword) (length text)
    then if found_from (suc (length text - length keyword)) 0 text keyword
      then true
      else contains text keywords
    else contains text keywords

-- A part of a text.
abbrev pub Occurs : Bytes → Bytes → Type 0
Occurs keyword text = (before : Bytes) × (after : Bytes) × (text ≡ before ++ (keyword ++ after))

abbrev pub AnyOf {ℓ} : {A : Type ℓ} → (A → Type 0) → List A → Type 0
AnyOf P [] = ⊥
AnyOf P (x ∷ xs) = P x ⊎ AnyOf P xs

cut-Occurs :
    (i : ℕ) (text keyword : Bytes)
    → take (length keyword) (drop i text) ≡ keyword
    → Occurs keyword text
cut-Occurs i text keyword e = (take i text, drop (length keyword) (drop i text), whole)
  where
    inner : keyword ++ drop (length keyword) (drop i text) ≡ drop i text
    inner =
        ap (λ w. w ++ drop (length keyword) (drop i text)) (sym e)
        ∙ take-append-drop (length keyword) (drop i text)

    whole : text ≡ take i text ++ (keyword ++ drop (length keyword) (drop i text))
    whole = sym (ap (λ w. take i text ++ w) inner ∙ take-append-drop i text)

found_from-Occurs :
    (n i : ℕ) (text keyword : Bytes) → found_from n i text keyword ≡ true → Occurs keyword text
unfolding found_from
found_from-Occurs zero i text keyword h = absurd (cc)
found_from-Occurs (suc n) i text keyword h =
    elim (Bool-cases (bytes_eq (take (length keyword) (drop i text)) keyword)) [
      | inl same ↦ cut-Occurs i text keyword ((bytes_eq_iff _ keyword).0 same)
      | inr other ↦ found_from-Occurs n (suc i) text keyword (rw other at h)
    ]

here :
    (before keyword after : Bytes)
    → take (length keyword) (drop (length before) (before ++ (keyword ++ after))) ≡ keyword
here before keyword after =
    ap (take (length keyword)) (drop-append_left before (keyword ++ after))
    ∙ take-append_left keyword after

found_from_lem :
    (n i : ℕ) (before keyword after : Bytes)
    → i ≤ length before
    → length before + 1 ≤ i + n
    → found_from n i (before ++ (keyword ++ after)) keyword ≡ true
unfolding found_from
found_from_lem zero i before keyword after lo hi = absurd (omega arith)
found_from_lem (suc n) i before keyword after lo hi = ground (
  arith,
  found_from_lem n (suc i) before keyword after,
  bytes_eq_iff (take (length keyword) (drop i (before ++ (keyword ++ after)))) keyword,
  at_end,
)
  where
    at_end :
        i ≡ length before → take (length keyword) (drop i (before ++ (keyword ++ after))) ≡ keyword
    at_end e = rw e (here before keyword after)

found_from_complete :
    (text keyword : Bytes)
    → Occurs keyword text
    → (leb (length keyword) (length text) ≡ true)
      × (found_from (suc (length text - length keyword)) 0 text keyword ≡ true)
found_from_complete text keyword (before, after, e) = rw e (
  ground (arith, length-append before (keyword ++ after), length-append keyword after),
  found_from_lem _ 0 before keyword after (omega arith)
      (omega (arith, length-append before (keyword ++ after), length-append keyword after)),
)

contains-AnyOf :
    (text : Bytes) (keywords : List Bytes)
    → contains text keywords ≡ true
    → AnyOf (λ keyword. Occurs keyword text) keywords
unfolding contains
contains-AnyOf text [] h = absurd (cc)
contains-AnyOf text (keyword ∷ keywords) h =
    elim (Bool-cases (leb (length keyword) (length text))) [
      | inl fits ↦
          elim (Bool-cases (found_from (suc (length text - length keyword)) 0 text keyword)) [
            | inl found ↦ inl (found_from-Occurs _ 0 text keyword found)
            | inr missing ↦ inr (contains-AnyOf text keywords (rw (fits, missing) at h))
          ]
      | inr long ↦ inr (contains-AnyOf text keywords (rw long at h))
    ]

contains_complete :
    (text : Bytes) (keywords : List Bytes)
    → AnyOf (λ keyword. Occurs keyword text) keywords
    → contains text keywords ≡ true
unfolding contains
contains_complete text [] h = absurd h
contains_complete text (keyword ∷ keywords) (inl occurs) =
    let (fits, found) = found_from_complete text keyword occurs in rw (fits, found) refl
contains_complete text (keyword ∷ keywords) (inr later) =
    ground (arith, contains_complete text keywords later)

-- contains answers yes exactly if one of the keywords is a part of the text.
pub contains_iff :
    (text : Bytes) (keywords : List Bytes)
    → (contains text keywords ≡ true) ↔ AnyOf (λ keyword. Occurs keyword text) keywords
contains_iff text keywords = (contains-AnyOf text keywords, contains_complete text keywords)
