-- ===== src/Base/Heap.antt =====
-- A list as a store: the object at address `i` is its element `i`, and a new object goes to the end.
use Prim.Native.Nat.{ℕ, zero, suc, ◌<◌}
use mathlib.Core.Path.{◌≡◌, refl, ap, subst}
use mathlib.Core.Logic.{◌≢◌}
use mathlib.Core.List.{List, [], ◌∷◌, ◌++◌}
use mathlib.Core.Option.{Option, none, some}
use native.Mathlib.Omega.{arith}
use t_chat.Base.Lists.{length, get_elem?, All}

-- Writing to the object at an address.
abbrev pub write_at_index {ℓ} : {A : Type ℓ} → ℕ → (A → A) → List A → List A
write_at_index i f [] = []
write_at_index zero f (x ∷ xs) = f x ∷ xs
write_at_index (suc i) f (x ∷ xs) = x ∷ write_at_index i f xs

-- A field of the object at an address.
abbrev pub field_at {ℓ κ} : {A : Type ℓ} {B : Type κ} → (A → B) → List A → ℕ → Option B
field_at g heap i = elim (get_elem? heap i) [ none ↦ none | some x ↦ some (g x) ]

module _ {ℓ} {A : Type ℓ} where
  pub length-write_at_index :
      (i : ℕ) (f : A → A) (xs : List A) → length (write_at_index i f xs) ≡ length xs
  length-write_at_index i f [] = refl
  length-write_at_index zero f (x ∷ xs) = refl
  length-write_at_index (suc i) f (x ∷ xs) = ap suc (length-write_at_index i f xs)

  pub All-write_at_index {κ} :
      (P : A → Type κ) (i : ℕ) (f : A → A) (xs : List A)
      → ((x : A) → get_elem? xs i ≡ some x → P x → P (f x))
      → All P xs
      → All P (write_at_index i f xs)
  All-write_at_index P i f [] h a = tt
  All-write_at_index P zero f (x ∷ xs) h a = (h x refl a.0, a.1)
  All-write_at_index P (suc i) f (x ∷ xs) h a = (a.0, All-write_at_index P i f xs h a.1)

  pub All-get_elem? {κ} :
      (P : A → Type κ) (i : ℕ) (xs : List A) {x : A} → All P xs → get_elem? xs i ≡ some x → P x
  All-get_elem? P i [] a h = cc
  All-get_elem? P zero (y ∷ xs) {x} a h = let e : some y ≡ some x = h in subst P (cc) a.0
  All-get_elem? P (suc i) (y ∷ xs) a h = All-get_elem? P i xs a.1 h

  pub get_elem?-write_at_index_ne :
      (i j : ℕ) (f : A → A) (xs : List A)
      → i ≢ j
      → get_elem? (write_at_index i f xs) j ≡ get_elem? xs j
  get_elem?-write_at_index_ne i j f [] h = refl
  get_elem?-write_at_index_ne zero zero f (x ∷ xs) h = absurd (h refl)
  get_elem?-write_at_index_ne zero (suc j) f (x ∷ xs) h = refl
  get_elem?-write_at_index_ne (suc i) zero f (x ∷ xs) h = refl
  get_elem?-write_at_index_ne (suc i) (suc j) f (x ∷ xs) h =
      get_elem?-write_at_index_ne i j f xs (λ e. h (ap suc e))

  pub get_elem?-write_at_index :
      (i : ℕ) (f : A → A) (xs : List A) {x : A}
      → get_elem? xs i ≡ some x
      → get_elem? (write_at_index i f xs) i ≡ some (f x)
  get_elem?-write_at_index i f [] h = cc
  get_elem?-write_at_index zero f (y ∷ xs) {x} h =
      let e : some y ≡ some x = h in let same : y ≡ x = cc in rw same refl
  get_elem?-write_at_index (suc i) f (y ∷ xs) h = get_elem?-write_at_index i f xs h

module _ {ℓ κ} {A : Type ℓ} {B : Type κ} (g : A → B) where
  -- A write that keeps the field keeps it everywhere.
  pub field_at-write_at_index :
      (i j : ℕ) (f : A → A) (xs : List A)
      → ((x : A) → g (f x) ≡ g x)
      → field_at g (write_at_index i f xs) j ≡ field_at g xs j
  field_at-write_at_index i j f [] same = refl
  field_at-write_at_index zero zero f (x ∷ xs) same = ap some (same x)
  field_at-write_at_index zero (suc j) f (x ∷ xs) same = refl
  field_at-write_at_index (suc i) zero f (x ∷ xs) same = refl
  field_at-write_at_index (suc i) (suc j) f (x ∷ xs) same = field_at-write_at_index i j f xs same

  pub field_at-append :
      (xs : List A) (x : A) (i : ℕ) (b : B)
      → field_at g xs i ≡ some b
      → field_at g (xs ++ (x ∷ [])) i ≡ some b
  field_at-append [] x i b h = cc
  field_at-append (y ∷ xs) x zero b h = h
  field_at-append (y ∷ xs) x (suc i) b h = field_at-append xs x i b h

  pub field_at-last : (xs : List A) (x : A) → field_at g (xs ++ (x ∷ [])) (length xs) ≡ some (g x)
  field_at-last [] x = refl
  field_at-last (y ∷ xs) x = field_at-last xs x

  pub field_at-lt : (xs : List A) (i : ℕ) (b : B) → field_at g xs i ≡ some b → i < length xs
  field_at-lt [] i b h = cc
  field_at-lt (x ∷ xs) zero b h = omega arith
  field_at-lt (x ∷ xs) (suc i) b h = omega (arith, field_at-lt xs i b h)
