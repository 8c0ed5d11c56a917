-- ===== src/Network/Outcome.antt =====
-- What comes of an operation on locks and channels in internal/network, and running one after the
-- other.
use t_chat.Base.{ℕ, ◌≡◌, refl, Option, none, some, List, get_elem?}

-- It returns, the goroutine panics, or it waits for ever.
pub data Outcome (A : Type 0) : Type 0 where
  returns : A → Outcome A
  panics : Outcome A
  waits : Outcome A

infixl 10 ◌>>=◌
abbrev pub ◌>>=◌ : {A B : Type 0} → Outcome A → (A → Outcome B) → Outcome B
Outcome.returns a >>= f = f a
Outcome.panics >>= f = Outcome.panics
Outcome.waits >>= f = Outcome.waits

-- The object at an address of a store.
abbrev pub load_at : {A : Type 0} → ℕ → List A → Outcome A
load_at i heap = elim (get_elem? heap i) [ none ↦ panics | some x ↦ returns x ]

-- What returns does so step by step.
pub bind-returns :
    {A B : Type 0} (o : Outcome A) (f : A → Outcome B) {b : B}
    → (o >>= f) ≡ Outcome.returns b
    → (a : A) × (o ≡ Outcome.returns a) × (f a ≡ Outcome.returns b)
bind-returns (Outcome.returns a) f e = (a, refl, e)
bind-returns Outcome.panics f e = absurd (cc)
bind-returns Outcome.waits f e = absurd (cc)

pub load_at-returns :
    {A : Type 0} (i : ℕ) (heap : List A) {x : A}
    → load_at i heap ≡ Outcome.returns x
    → get_elem? heap i ≡ some x
load_at-returns i heap {x} e = from (get_elem? heap i) e
  where
    from :
        (o : Option _)
        → elim o [ none ↦ panics | some y ↦ returns y ] ≡ Outcome.returns x
        → o ≡ some x
    from none e = absurd (cc)
    from (some y) e = cc
