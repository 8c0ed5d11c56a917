-- ===== src/Base/Counting.antt =====
-- Maps with numbers as keys: how many keys there can be.
use Prim.Native.Nat.{ℕ, zero, suc, ◌+◌, ◌≤◌, ◌<◌}
use mathlib.Core.Path.{refl}
use mathlib.Core.Logic.{◌≢◌, inl, inr}
use mathlib.Core.List.{[], ◌∷◌}
use mathlib.Core.Option.{none}
use native.Mathlib.Omega.{arith}
use t_chat.Base.Tests.{eqb, nat_comparable, Bool-cases}
use t_chat.Base.Lists.{length}
use t_chat.Base.Maps.{GoMap, lookup, remove, lookup-remove}

module _ {ℓ} {V : Type ℓ} where
  length-remove-le : (k : ℕ) (m : GoMap ℕ V) → length (remove k m) ≤ length m
  unfolding remove
  length-remove-le k [] = omega arith
  length-remove-le k ((j, v) ∷ m) = ground (arith, length-remove-le k m)

  length-remove-lt : (k : ℕ) (m : GoMap ℕ V) → lookup k m ≢ none → length (remove k m) < length m
  unfolding remove lookup
  length-remove-lt k [] h = absurd (h refl)
  length-remove-lt k ((j, v) ∷ m) h = elim (Bool-cases (eqb j k)) [
    | inl same ↦ rw same (omega (arith, length-remove-le k m))
    | inr other ↦ rw other (omega (arith, length-remove-lt k m (rw other at h)))
  ]

  -- A map that has `k` keys in a row has at least `k` entries.
  pub keys-le-length :
      (k i : ℕ) (m : GoMap ℕ V) → ((j : ℕ) → i ≤ j → j < i + k → lookup j m ≢ none) → k ≤ length m
  keys-le-length zero i m h = omega arith
  keys-le-length (suc k) i m h = omega (
    arith,
    length-remove-lt i m (h i (omega arith) (omega arith)),
    keys-le-length k (suc i) (remove i m)
        (λ j lo hi e. h j (omega arith) (omega arith) (ground (arith, lookup-remove i j m))),
  )
