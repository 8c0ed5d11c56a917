-- ===== src/Base/Index.antt =====
-- Lists by index: how `get_elem?` meets the other operations, and extensionality.
use Prim.Native.Nat.{ℕ, zero, suc, ◌+◌, ◌-◌, ◌≤◌, ◌<◌}
use mathlib.Core.Path.{◌≡◌, refl, ap, ◌∙◌}
use mathlib.Core.Option.{none, some}
use mathlib.Core.List.{List, [], ◌∷◌, ◌++◌}
use native.Mathlib.Omega.{arith}
use t_chat.Base.Tests.{ltb, if◌then◌else◌}
use t_chat.Base.Lists.{length, get_elem?, take, drop}

module _ {ℓ} {A : Type ℓ} where
  pub get_elem?-append :
      (xs ys : List A) (j : ℕ)
      → get_elem? (xs ++ ys) j
        ≡ (if ltb j (length xs) then get_elem? xs j else get_elem? ys (j - length xs))
  get_elem?-append [] ys j = ground arith
  get_elem?-append (x ∷ xs) ys zero = ground arith
  get_elem?-append (x ∷ xs) ys (suc j) = ground (arith, get_elem?-append xs ys j)

  pub get_elem?-take :
      (n : ℕ) (xs : List A) (j : ℕ)
      → get_elem? (take n xs) j ≡ (if ltb j n then get_elem? xs j else none)
  get_elem?-take zero xs j = ground arith
  get_elem?-take (suc n) [] j = ground arith
  get_elem?-take (suc n) (x ∷ xs) zero = ground arith
  get_elem?-take (suc n) (x ∷ xs) (suc j) = ground (arith, get_elem?-take n xs j)

  pub get_elem?-drop :
      (n : ℕ) (xs : List A) (j : ℕ) → get_elem? (drop n xs) j ≡ get_elem? xs (n + j)
  get_elem?-drop zero xs j = ap (get_elem? xs) (omega arith)
  get_elem?-drop (suc n) [] j = refl
  get_elem?-drop (suc n) (x ∷ xs) j =
      get_elem?-drop n xs j ∙ ap (get_elem? (x ∷ xs)) {x = suc (n + j)} (omega arith)

  pub get_elem?-none : (xs : List A) (j : ℕ) → length xs ≤ j → get_elem? xs j ≡ none
  get_elem?-none [] j h = refl
  get_elem?-none (x ∷ xs) zero h = absurd (omega arith)
  get_elem?-none (x ∷ xs) (suc j) h = get_elem?-none xs j (omega arith)

  pub get_elem?-some : (xs : List A) (j : ℕ) → j < length xs → (a : A) × (get_elem? xs j ≡ some a)
  get_elem?-some [] j h = absurd (omega arith)
  get_elem?-some (x ∷ xs) zero h = (x, refl)
  get_elem?-some (x ∷ xs) (suc j) h = get_elem?-some xs j (omega arith)

  -- Lists with the same element at every index are equal.
  pub get_elem?_ext : (xs ys : List A) → ((j : ℕ) → get_elem? xs j ≡ get_elem? ys j) → xs ≡ ys
  get_elem?_ext [] [] h = refl
  get_elem?_ext [] (y ∷ ys) h = let e : none ≡ some y = h 0 in cc
  get_elem?_ext (x ∷ xs) [] h = let e : some x ≡ none = h 0 in cc
  get_elem?_ext (x ∷ xs) (y ∷ ys) h =
      let first : some x ≡ some y = h 0 in
      let rest : xs ≡ ys = get_elem?_ext xs ys (λ j. h (suc j)) in cc

  pub take-add : (m n : ℕ) (xs : List A) → take m xs ++ take n (drop m xs) ≡ take (m + n) xs
  take-add zero n xs = ap (λ (k : ℕ). take k xs) (omega arith)
  take-add (suc m) zero [] = ap (λ (k : ℕ). take {A = A} k []) {x = suc (m + zero)} (omega arith)
  take-add (suc m) (suc n) [] =
      ap (λ (k : ℕ). take {A = A} k []) {x = suc (m + suc n)} (omega arith)
  take-add (suc m) n (x ∷ xs) =
      ap (λ t. x ∷ t) (take-add m n xs)
      ∙ ap (λ (k : ℕ). take k (x ∷ xs)) {x = suc (m + n)} (omega arith)
