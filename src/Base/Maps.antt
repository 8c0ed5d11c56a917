-- ===== src/Base/Maps.antt =====
-- Go maps as association lists. The order of the entries stands for the order in which `range`
-- visits them, which Go leaves open: a statement over every list is one over every order.
use Prim.Native.Nat.{suc}
use mathlib.Core.Path.{◌≡◌, refl, subst}
use mathlib.Core.Logic.{inl, inr}
use mathlib.Core.Bool.{Bool}
use mathlib.Core.List.{List, [], ◌∷◌}
use mathlib.Core.Option.{Option, none, some}
use native.Mathlib.Omega.{arith}
use t_chat.Base.Tests.{Comparable, ◌==◌, if◌then◌else◌, Bool-cases}
use t_chat.Base.Lists.{length, All, keep}

abbrev pub GoMap {ℓ κ} : Type ℓ → Type κ → Type (ℓ ⊔ κ)
GoMap K V = List (K × V)

module _ {ℓ κ} {K : Type ℓ} {V : Type κ} ⦃e : Comparable K⦄ where
  -- `v, ok := m[k]`
  unfoldable pub lookup : K → GoMap K V → Option V
  lookup k [] = none
  lookup k ((j, v) ∷ m) = if j == k then some v else lookup k m

  -- `m[k] = v`
  unfoldable pub store : K → V → GoMap K V → GoMap K V
  store k v [] = (k, v) ∷ []
  store k v ((j, w) ∷ m) = if j == k then (k, v) ∷ m else (j, w) ∷ store k v m

  -- `delete(m, k)`
  unfoldable pub remove : K → GoMap K V → GoMap K V
  remove k [] = []
  remove k ((j, w) ∷ m) = if j == k then remove k m else (j, w) ∷ remove k m

  pub lookup-store :
      (k j : K) (v : V) (m : GoMap K V)
      → lookup j (store k v m) ≡ (if k == j then some v else lookup j m)
  unfolding lookup store
  lookup-store k j v [] = refl
  lookup-store k j v ((i, w) ∷ m) =
      ground (arith, e.equals_iff k j, e.equals_iff i k, e.equals_iff i j, lookup-store k j v m)

  pub lookup-remove :
      (k j : K) (m : GoMap K V) → lookup j (remove k m) ≡ (if k == j then none else lookup j m)
  unfolding lookup remove
  lookup-remove k j [] = ground arith
  lookup-remove k j ((i, w) ∷ m) =
      ground (arith, e.equals_iff k j, e.equals_iff i k, e.equals_iff i j, lookup-remove k j m)

  -- What a method does to the object that the map points to under `k`, if there is one.
  unfoldable pub modify : K → (V → V) → GoMap K V → GoMap K V
  modify k f [] = []
  modify k f ((j, w) ∷ m) = if j == k then (j, f w) ∷ modify k f m else (j, w) ∷ modify k f m

  pub lookup-modify :
      (k j : K) (f : V → V) (m : GoMap K V)
      → lookup j (modify k f m)
        ≡ (if k == j then elim (lookup j m) [ some v ↦ some (f v) | none ↦ none ] else lookup j m)
  unfolding lookup modify
  lookup-modify k j f [] = ground arith
  lookup-modify k j f ((i, w) ∷ m) =
      ground (arith, e.equals_iff k j, e.equals_iff i k, e.equals_iff i j, lookup-modify k j f m)

  -- A fact about every value, as an invariant of the map.
  abbrev pub Values {μ} : (V → Type μ) → GoMap K V → Type μ
  Values P m = All (λ (kv : K × V). P kv.1) m

  pub Values-store {μ} :
      (P : V → Type μ) (k : K) (v : V) (m : GoMap K V) → P v → Values P m → Values P (store k v m)
  unfolding store
  Values-store P k v [] h hs = (h, tt)
  Values-store P k v ((j, w) ∷ m) h hs = elim (Bool-cases (j == k)) [
    | inl same ↦ rw same (h, hs.1)
    | inr other ↦ rw other (hs.0, Values-store P k v m h hs.1)
  ]

  -- A fact about every entry.
  pub All-store {μ} :
      (P : K × V → Type μ) (k : K) (v : V) (m : GoMap K V)
      → P (k, v)
      → All P m
      → All P (store k v m)
  unfolding store
  All-store P k v [] h hs = (h, tt)
  All-store P k v ((j, w) ∷ m) h hs = elim (Bool-cases (j == k)) [
    | inl same ↦ rw same (h, hs.1)
    | inr other ↦ rw other (hs.0, All-store P k v m h hs.1)
  ]

  pub All-remove {μ} : (P : K × V → Type μ) (k : K) (m : GoMap K V) → All P m → All P (remove k m)
  unfolding remove
  All-remove P k [] hs = tt
  All-remove P k ((j, w) ∷ m) hs = elim (Bool-cases (j == k)) [
    | inl same ↦ rw same (All-remove P k m hs.1)
    | inr other ↦ rw other (hs.0, All-remove P k m hs.1)
  ]

  pub Values-remove {μ} :
      (P : V → Type μ) (k : K) (m : GoMap K V) → Values P m → Values P (remove k m)
  unfolding remove
  Values-remove P k [] hs = tt
  Values-remove P k ((j, w) ∷ m) hs = elim (Bool-cases (j == k)) [
    | inl same ↦ rw same (Values-remove P k m hs.1)
    | inr other ↦ rw other (hs.0, Values-remove P k m hs.1)
  ]

  pub Values-lookup {μ} :
      (P : V → Type μ) (k : K) (m : GoMap K V) {v : V} → Values P m → lookup k m ≡ some v → P v
  unfolding lookup
  Values-lookup P k [] hs h = cc
  Values-lookup P k ((j, w) ∷ m) {v} hs h = elim (Bool-cases (j == k)) [
    | inl same ↦ let e : some w ≡ some v = rw same at h in subst P (cc) hs.0
    | inr other ↦ Values-lookup P k m hs.1 (rw other at h)
  ]

  pub All-lookup {μ} :
      (P : K × V → Type μ) (k : K) (m : GoMap K V) {v : V}
      → All P m
      → lookup k m ≡ some v
      → P (k, v)
  unfolding lookup
  All-lookup P k [] hs h = cc
  All-lookup P k ((j, w) ∷ m) {v} hs h = elim (Bool-cases (j == k)) [
    | inl same ↦
        let value : some w ≡ some v = rw same at h in
        let key : j ≡ k = (e.equals_iff j k).0 same in subst P (cc) hs.0
    | inr other ↦ All-lookup P k m hs.1 (rw other at h)
  ]

  pub Values-modify {μ} :
      (P : V → Type μ) (k : K) (f : V → V) (m : GoMap K V)
      → ((v : V) → P v → P (f v))
      → Values P m
      → Values P (modify k f m)
  unfolding modify
  Values-modify P k f [] h hs = tt
  Values-modify P k f ((j, w) ∷ m) h hs = elim (Bool-cases (j == k)) [
    | inl same ↦ rw same (h w hs.0, Values-modify P k f m h hs.1)
    | inr other ↦ rw other (hs.0, Values-modify P k f m h hs.1)
  ]

  -- `store` keeps the size at a key that is present, and adds one entry otherwise.
  pub length-store :
      (k : K) (v : V) (m : GoMap K V)
      → length (store k v m) ≡ elim (lookup k m) [ some w ↦ length m | none ↦ suc (length m) ]
  unfolding lookup store
  length-store k v [] = refl
  length-store k v ((j, w) ∷ m) = ground (arith, length-store k v m)

  -- The entries of a map whose value passes a test (the loops that collect or delete entries).
  abbrev pub keep_values : (V → Bool) → GoMap K V → GoMap K V
  keep_values p = keep (λ (kv : K × V). p kv.1)
