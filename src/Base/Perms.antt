-- ===== src/Base/Perms.antt =====
-- Permutations of lists, and what holds of every entry.
use mathlib.Core.Path.{◌≡◌, refl, sym, subst}
use mathlib.Core.List.{List, [], ◌∷◌, Permᴰ, Memᴰ}
use native.Mathlib.Omega.{arith}
use t_chat.Base.Lists.{length, All}

pub All-Permᴰ : {A : Type 0} (P : A → Type 0) (xs ys : List A) → Permᴰ xs ys → All P xs → All P ys
All-Permᴰ P _ _ Permᴰ.nil a = tt
All-Permᴰ P _ _ (Permᴰ.cons {l₁ = l} {l₂ = m} e p) a = (subst P e a.0, All-Permᴰ P l m p a.1)
All-Permᴰ P _ _ (Permᴰ.swap e f) a = (subst P f a.1.0, (subst P e a.0, a.1.1))
All-Permᴰ P _ _ (Permᴰ.trans {l₁ = l} {l₂ = m} {l₃ = n} p q) a =
    All-Permᴰ P m n q (All-Permᴰ P l m p a)

pub All-map :
    {A : Type 0} (P Q : A → Type 0) (xs : List A) → ((a : A) → P a → Q a) → All P xs → All Q xs
All-map P Q [] f h = tt
All-map P Q (x ∷ xs) f h = (f x h.0, All-map P Q xs f h.1)

pub length-Permᴰ : {A : Type 0} (xs ys : List A) → Permᴰ xs ys → length xs ≡ length ys
length-Permᴰ _ _ Permᴰ.nil = refl
length-Permᴰ _ _ (Permᴰ.cons {l₁ = l} {l₂ = m} e p) = omega (arith, length-Permᴰ l m p)
length-Permᴰ _ _ (Permᴰ.swap e f) = refl
length-Permᴰ _ _ (Permᴰ.trans {l₁ = l} {l₂ = m} {l₃ = n} p q) =
    omega (arith, length-Permᴰ l m p, length-Permᴰ m n q)

-- Every entry of a list is in it.
pub All-Memᴰ : {A : Type 0} (xs : List A) → All (λ x. Memᴰ x xs) xs
All-Memᴰ [] = tt
All-Memᴰ (x ∷ xs) = (
  Memᴰ.head refl,
  All-map (λ y. Memᴰ y xs) (λ y. Memᴰ y (x ∷ xs)) xs (λ y m. Memᴰ.tail m) (All-Memᴰ xs),
)

pub Memᴰ-All : {A : Type 0} (P : A → Type 0) (x : A) (xs : List A) → Memᴰ x xs → All P xs → P x
Memᴰ-All P x [] m a = elim m [ ]
Memᴰ-All P x (y ∷ ys) (Memᴰ.head e) a = subst P (sym e) a.0
Memᴰ-All P x (y ∷ ys) (Memᴰ.tail m) a = Memᴰ-All P x ys m a.1

-- Only the empty list is a permutation of it.
pub Permᴰ-nil : {A : Type 0} (xs : List A) → Permᴰ xs [] → xs ≡ []
Permᴰ-nil [] p = refl
Permᴰ-nil (x ∷ xs) p = absurd (omega (arith, length-Permᴰ (x ∷ xs) [] p))
