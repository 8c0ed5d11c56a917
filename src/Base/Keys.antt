-- ===== src/Base/Keys.antt =====
-- Association lists with distinct keys, which are the ones that stand for Go maps.
use mathlib.Core.Path.{◌≡◌, refl}
use mathlib.Core.Logic.{inl, inr}
use mathlib.Core.Bool.{Bool, true, false}
use mathlib.Core.List.{[], ◌∷◌}
use mathlib.Core.Option.{none, some}
use native.Mathlib.Omega.{arith}
use t_chat.Base.Tests.{Comparable, ◌==◌, if◌then◌else◌, Bool-cases}
use t_chat.Base.Maps.{GoMap, lookup, store, remove, modify, keep_values}

module _ {ℓ κ} {K : Type ℓ} {V : Type κ} ⦃e : Comparable K⦄ where
  abbrev pub Absent : K → GoMap K V → Type 0
  Absent k [] = Unit
  Absent k ((j, v) ∷ m) = ((j == k) ≡ false) × Absent k m

  abbrev pub DistinctKeys : GoMap K V → Type 0
  DistinctKeys [] = Unit
  DistinctKeys ((k, v) ∷ m) = Absent k m × DistinctKeys m

  pub lookup-Absent : (k : K) (m : GoMap K V) → Absent k m → lookup k m ≡ none
  unfolding lookup
  lookup-Absent k [] a = refl
  lookup-Absent k ((j, v) ∷ m) a = rw a.0 (lookup-Absent k m a.1)

  Absent-store :
      (j k : K) (v : V) (m : GoMap K V) → Absent j m → (k == j) ≡ false → Absent j (store k v m)
  unfolding store
  Absent-store j k v [] a h = (h, tt)
  Absent-store j k v ((i, w) ∷ m) a h = elim (Bool-cases (i == k)) [
    | inl same ↦ rw same (h, a.1)
    | inr other ↦ rw other (a.0, Absent-store j k v m a.1 h)
  ]

  pub DistinctKeys-store :
      (k : K) (v : V) (m : GoMap K V) → DistinctKeys m → DistinctKeys (store k v m)
  unfolding store
  DistinctKeys-store k v [] d = (tt, tt)
  DistinctKeys-store k v ((j, w) ∷ m) d = elim (Bool-cases (j == k)) [
    | inl same ↦ rw same (moved m ((e.equals_iff j k).0 same) d.0, d.1)
    | inr other ↦ rw other (
      Absent-store j k v m d.0 (ground (arith, e.equals_iff k j, e.equals_iff j k)),
      DistinctKeys-store k v m d.1,
    )
  ]
    where
      moved : (m : GoMap K V) → j ≡ k → Absent j m → Absent k m
      moved m h a = rw (← h) a

  Absent-remove : (j k : K) (m : GoMap K V) → Absent j m → Absent j (remove k m)
  unfolding remove
  Absent-remove j k [] a = tt
  Absent-remove j k ((i, w) ∷ m) a = elim (Bool-cases (i == k)) [
    | inl same ↦ rw same (Absent-remove j k m a.1)
    | inr other ↦ rw other (a.0, Absent-remove j k m a.1)
  ]

  pub DistinctKeys-remove : (k : K) (m : GoMap K V) → DistinctKeys m → DistinctKeys (remove k m)
  unfolding remove
  DistinctKeys-remove k [] d = tt
  DistinctKeys-remove k ((j, w) ∷ m) d = elim (Bool-cases (j == k)) [
    | inl same ↦ rw same (DistinctKeys-remove k m d.1)
    | inr other ↦ rw other (Absent-remove j k m d.0, DistinctKeys-remove k m d.1)
  ]

  Absent-modify : (j k : K) (f : V → V) (m : GoMap K V) → Absent j m → Absent j (modify k f m)
  unfolding modify
  Absent-modify j k f [] a = tt
  Absent-modify j k f ((i, w) ∷ m) a = elim (Bool-cases (i == k)) [
    | inl same ↦ rw same (a.0, Absent-modify j k f m a.1)
    | inr other ↦ rw other (a.0, Absent-modify j k f m a.1)
  ]

  pub DistinctKeys-modify :
      (k : K) (f : V → V) (m : GoMap K V) → DistinctKeys m → DistinctKeys (modify k f m)
  unfolding modify
  DistinctKeys-modify k f [] d = tt
  DistinctKeys-modify k f ((j, w) ∷ m) d = elim (Bool-cases (j == k)) [
    | inl same ↦ rw same (Absent-modify j k f m d.0, DistinctKeys-modify k f m d.1)
    | inr other ↦ rw other (Absent-modify j k f m d.0, DistinctKeys-modify k f m d.1)
  ]

  Absent-keep : (p : V → Bool) (j : K) (m : GoMap K V) → Absent j m → Absent j (keep_values p m)
  Absent-keep p j [] a = tt
  Absent-keep p j ((k, v) ∷ m) a =
      elim (p v)
        as (λ b. Absent j (elim b [ true ↦ (k, v) ∷ keep_values p m | false ↦ keep_values p m ])) [
          | true ↦ (a.0, Absent-keep p j m a.1)
          | false ↦ Absent-keep p j m a.1
        ]

  pub DistinctKeys-keep :
      (p : V → Bool) (m : GoMap K V) → DistinctKeys m → DistinctKeys (keep_values p m)
  DistinctKeys-keep p [] d = tt
  DistinctKeys-keep p ((k, v) ∷ m) d =
      elim (p v)
        as (λ b.
          DistinctKeys (elim b [ true ↦ (k, v) ∷ keep_values p m | false ↦ keep_values p m ])) [
            | true ↦ (Absent-keep p k m d.0, DistinctKeys-keep p m d.1)
            | false ↦ DistinctKeys-keep p m d.1
          ]

  -- Deleting the entries that fail a test, key by key.
  pub lookup-keep_values :
      (p : V → Bool) (k : K) (m : GoMap K V)
      → DistinctKeys m
      → lookup k (keep_values p m)
        ≡ elim (lookup k m) [ none ↦ none | some v ↦ if p v then some v else none ]
  unfolding lookup
  lookup-keep_values p k [] d = refl
  lookup-keep_values p k ((j, v) ∷ m) d = elim (Bool-cases (j == k)) [
    | inl same ↦ ground (
      arith,
      same,
      lookup-Absent k (keep_values p m) (Absent-keep p k m (rw ((e.equals_iff j k).0 same) at d.0)),
    )
    | inr other ↦ ground (arith, other, lookup-keep_values p k m d.1)
  ]
