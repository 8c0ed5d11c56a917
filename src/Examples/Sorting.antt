-- ===== src/Examples/Sorting.antt =====
-- An insertion sort does what sort.Slice is documented to do.
use mathlib.Core.List.{Permᴰ, Memᴰ}
use mathlib.Core.List.Permᴰ as Permᴰ
use t_chat.Base.{◌≡◌, refl, Bool, true, false, List, [], ◌∷◌, All, All-Permᴰ, All-Memᴰ}
use t_chat.Network.Sorting.{Sorter, IsWeakOrder, IsSorted, SorterLaws}

abbrev insert_by : {A : Type 0} → (A → A → Bool) → A → List A → List A
insert_by lt x [] = x ∷ []
insert_by lt x (y ∷ ys) = elim (lt x y) [ true ↦ x ∷ y ∷ ys | false ↦ y ∷ insert_by lt x ys ]

abbrev sort_by : {A : Type 0} → (A → A → Bool) → List A → List A
sort_by lt [] = []
sort_by lt (x ∷ xs) = insert_by lt x (sort_by lt xs)

abbrev pub insertion_sort : Sorter
insertion_sort = record { sort_slice = sort_by }

insert_by-Permᴰ :
    {A : Type 0} (lt : A → A → Bool) (x : A) (ys : List A) → Permᴰ (x ∷ ys) (insert_by lt x ys)
insert_by-Permᴰ lt x [] = Permᴰ.refl _
insert_by-Permᴰ lt x (y ∷ ys) =
    elim (lt x y)
      as (λ b. Permᴰ (x ∷ y ∷ ys) (elim b [ true ↦ x ∷ y ∷ ys | false ↦ y ∷ insert_by lt x ys ])) [
        | true ↦ Permᴰ.refl _
        | false ↦ Permᴰ.trans (Permᴰ.swap refl refl) (Permᴰ.cons refl (insert_by-Permᴰ lt x ys))
      ]

sort_by-Permᴰ : {A : Type 0} (lt : A → A → Bool) (xs : List A) → Permᴰ xs (sort_by lt xs)
sort_by-Permᴰ lt [] = Permᴰ.nil
sort_by-Permᴰ lt (x ∷ xs) =
    Permᴰ.trans (Permᴰ.cons refl (sort_by-Permᴰ lt xs)) (insert_by-Permᴰ lt x (sort_by lt xs))

module _ {A : Type 0} (lt : A → A → Bool) (whole : List A) (order : IsWeakOrder lt whole) where
  abbrev Within : List A → Type 0
  Within = All (λ x. Memᴰ x whole)

  not_before :
      (x y : A) (ys : List A)
      → Memᴰ x whole
      → Memᴰ y whole
      → Within ys
      → lt y x ≡ false
      → All (λ b. lt b y ≡ false) ys
      → All (λ b. lt b x ≡ false) ys
  not_before x y [] in_x in_y in_ys h n = tt
  not_before x y (b ∷ ys) in_x in_y in_ys h n =
      (order.1 b y x in_ys.0 in_y in_x n.0 h, not_before x y ys in_x in_y in_ys.1 h n.1)

  not_before-insert_by :
      (x y : A) (ys : List A)
      → lt x y ≡ false
      → All (λ b. lt b y ≡ false) ys
      → All (λ b. lt b y ≡ false) (insert_by lt x ys)
  not_before-insert_by x y ys h n =
      All-Permᴰ (λ b. lt b y ≡ false) (x ∷ ys) _ (insert_by-Permᴰ lt x ys) (h, n)

  insert_by-IsSorted :
      (x : A) (ys : List A)
      → Memᴰ x whole
      → Within ys
      → IsSorted lt ys
      → IsSorted lt (insert_by lt x ys)
  insert_by-IsSorted x [] in_x in_ys sorted = (tt, tt)
  insert_by-IsSorted x (y ∷ ys) in_x in_ys sorted =
      elim (lt x y)
          as (λ b.
            lt x y ≡ b
            → IsSorted lt (elim b [ true ↦ x ∷ y ∷ ys | false ↦ y ∷ insert_by lt x ys ])) [
              | true ↦ λ e.
                  let back = order.0 x y in_x in_ys.0 e in
                  ((back, not_before x y ys in_x in_ys.0 in_ys.1 back sorted.0), sorted)
              | false ↦ λ e. (
                not_before-insert_by x y ys e sorted.0,
                insert_by-IsSorted x ys in_x in_ys.1 sorted.1,
              )
            ]
        refl

  sort_by-IsSorted : (xs : List A) → Within xs → IsSorted lt (sort_by lt xs)
  sort_by-IsSorted [] in_xs = tt
  sort_by-IsSorted (x ∷ xs) in_xs =
      insert_by-IsSorted x (sort_by lt xs) in_xs.0
        (All-Permᴰ (λ y. Memᴰ y whole) xs _ (sort_by-Permᴰ lt xs) in_xs.1)
        (sort_by-IsSorted xs in_xs.1)

pub insertion_sort-SorterLaws : SorterLaws insertion_sort
insertion_sort-SorterLaws = record {
  sort_slice-Permᴰ = sort_by-Permᴰ;
  sort_slice-IsSorted = λ lt xs order. sort_by-IsSorted lt xs order xs (All-Memᴰ xs);
}
