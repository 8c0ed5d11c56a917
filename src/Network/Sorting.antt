-- ===== src/Network/Sorting.antt =====
-- sort.Slice, which internal/network uses with a test on the elements, and what its documentation
-- says.
use mathlib.Core.List.{Permᴰ, Memᴰ}
use t_chat.Base.{◌≡◌, Bool, true, false, List, [], ◌∷◌, All}

pub record Sorter : Type 1 where
  pub sort_slice : {A : Type 0} → (A → A → Bool) → List A → List A

-- A strict order on the entries of a list in which being not less is transitive.
abbrev pub IsWeakOrder : {A : Type 0} → (A → A → Bool) → List A → Type 0
IsWeakOrder {A} lt xs =
    ((a b : A) → Memᴰ a xs → Memᴰ b xs → lt a b ≡ true → lt b a ≡ false)
    × ((a b c : A)
        → Memᴰ a xs
        → Memᴰ b xs
        → Memᴰ c xs
        → lt a b ≡ false
        → lt b c ≡ false
        → lt a c ≡ false)

-- None is less than one before it.
abbrev pub IsSorted : {A : Type 0} → (A → A → Bool) → List A → Type 0
IsSorted lt [] = Unit {0}
IsSorted lt (x ∷ xs) = All (λ y. lt y x ≡ false) xs × IsSorted lt xs

-- What the documentation of sort.Slice says.
pub record SorterLaws (sorter : Sorter) : Type 1 where
  pub sort_slice-Permᴰ :
      {A : Type 0} (lt : A → A → Bool) (xs : List A) → Permᴰ xs (sorter.sort_slice lt xs)
  pub sort_slice-IsSorted :
      {A : Type 0} (lt : A → A → Bool) (xs : List A)
      → IsWeakOrder lt xs
      → IsSorted lt (sorter.sort_slice lt xs)
