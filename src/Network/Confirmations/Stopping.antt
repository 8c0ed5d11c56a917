-- ===== src/Network/Confirmations/Stopping.antt =====
-- What becomes of internal/network/user_confirmation_handler.go when `Stop` takes the lock while the
-- user is still asked.
use t_chat.Base.{
  ◌≡◌, ◌≢◌, refl, sym, ap, ◌∙◌, true, List, [], ◌∷◌, ◌++◌, All, All-append, append_assoc,
}
use t_chat.Network.Outcome.{Outcome}
use t_chat.Network.Confirmations.{
  FileTransferRequest, RequestError, no_callback, ConfirmationHandler, cleanup_all, cleanup_each,
  cleanup_request,
}
use t_chat.Network.Confirmations.System.{Thread, Program, Move, Call, Step, Steps}

cleanup_all-waits :
    (h : ConfirmationHandler) → h.pending_requests ≢ [] → cleanup_all h ≡ Outcome.waits
unfolding cleanup_all cleanup_each cleanup_request
cleanup_all-waits h some_pending = first h.pending_requests some_pending
  where
    first : (m : _) → m ≢ [] → cleanup_each m h ≡ Outcome.waits
    first [] n = absurd (n refl)
    first ((f, i) ∷ rest) n = refl

-- The calls that have returned an error meanwhile found no callback.
pub record Refuses (p p' : Program) : Type 0 where
  pub more : List (FileTransferRequest × RequestError)
  pub all : p'.refusals ≡ more ++ p.refusals
  pub lacking : All (λ r. r.1 ≡ no_callback) more

unrefused : (p p' : Program) → p'.refusals ≡ p.refusals → Refuses p p'
unrefused p p' same = record { more = []; all = same; lacking = tt }

Refuses-trans : (p p' p'' : Program) → Refuses p p' → Refuses p' p'' → Refuses p p''
Refuses-trans p p' p'' r r' = record {
  more = r'.more ++ r.more;
  all = r'.all ∙ ap (λ l. r'.more ++ l) r.all ∙ sym (append_assoc r'.more r.more p.refusals);
  lacking = All-append _ r'.more r.more r'.lacking r.lacking;
}

-- What holds of a program that a waiting `Stop` has locked.
abbrev IsStuck : Program → Program → Type 0
IsStuck p p' = (p'.returned ≡ p.returned) × (p'.is_locked ≡ true) × Refuses p p'

Move-IsStuck :
    (p p' : Program) (t : Thread) (ts : List Thread)
    → p.is_locked ≡ true
    → Move p t p' ts
    → IsStuck p p'
Move-IsStuck p p' t ts locked (Move.answers q r) = (refl, locked, unrefused _ _ refl)
Move-IsStuck p p' t ts locked (Move.fails q) = (refl, locked, unrefused _ _ refl)
Move-IsStuck p p' t ts locked (Move.finds f r b i free e) = absurd (cc)
Move-IsStuck p p' t ts locked (Move.misses f r b free e) = absurd (cc)
Move-IsStuck p p' t ts locked (Move.sends f i r b h e) = (refl, locked, unrefused _ _ refl)
Move-IsStuck p p' t ts locked (Move.recovers f i r e) = (refl, locked, unrefused _ _ refl)
Move-IsStuck p p' t ts locked (Move.crashes f i r e) = (refl, locked, unrefused _ _ refl)
Move-IsStuck p p' t ts locked (Move.fires f i free e) = absurd (cc)
Move-IsStuck p p' t ts locked (Move.fires_late f free e) = absurd (cc)
Move-IsStuck p p' t ts locked (Move.timer_stopped f e) = (refl, locked, unrefused _ _ refl)
Move-IsStuck p p' t ts locked (Move.signals i h e) = (refl, locked, unrefused _ _ refl)
Move-IsStuck p p' t ts locked (Move.signal_crashes i e) = (refl, locked, unrefused _ _ refl)
Move-IsStuck p p' t ts locked (Move.hears q i x o c e e') = (refl, locked, unrefused _ _ refl)
Move-IsStuck p p' t ts locked (Move.times_out q i x o c e e') = (refl, locked, unrefused _ _ refl)
Move-IsStuck p p' t ts locked (Move.sees_stop q i e) = (refl, locked, unrefused _ _ refl)
Move-IsStuck p p' t ts locked (Move.cleans q o h free e) = absurd (cc)
Move-IsStuck p p' t ts locked (Move.cleanup_crashes q o free e) = absurd (cc)
Move-IsStuck p p' t ts locked (Move.stop_returns h free e) = absurd (cc)
Move-IsStuck p p' t ts locked (Move.stop_waits free e) = absurd (cc)

Call-IsStuck :
    (p p' : Program) (ts : List Thread) → p.is_locked ≡ true → Call p p' ts → IsStuck p p'
Call-IsStuck p p' ts locked (Call.requests now q h free e) = absurd (cc)
Call-IsStuck p p' ts locked (Call.lacks_callback q e) =
    (refl, locked, record { more = (q, no_callback) ∷ []; all = refl; lacking = (refl, tt) })
Call-IsStuck p p' ts locked (Call.finds_pending now q free e) = absurd (cc)
Call-IsStuck p p' ts locked (Call.cancels f i free e) = absurd (cc)
Call-IsStuck p p' ts locked (Call.sets_callback b free) = absurd (cc)
Call-IsStuck p p' ts locked Call.stops = (refl, locked, unrefused _ _ refl)

Steps-IsStuck :
    (p p' : Program) (ts ts' : List Thread) → p.is_locked ≡ true → Steps p ts p' ts' → IsStuck p p'
Steps-IsStuck p p' ts ts' locked Steps.here = (refl, locked, unrefused _ _ refl)
Steps-IsStuck p p'' ts ts'' locked (Steps.further {p' = p'} {ts' = ts'} steps step) =
    let (same, still, refused) = Steps-IsStuck p p' ts ts' locked steps in
    let (same', still', refused') = one p' p'' ts' ts'' still step in
    (same' ∙ same, still', Refuses-trans p p' p'' refused refused')
  where
    one :
        (p p' : Program) (ts ts' : List Thread)
        → p.is_locked ≡ true
        → Step p ts p' ts'
        → IsStuck p p'
    one p p' _ _ locked (Step.moves {t = t} {ts = ts} left right alive move) =
        Move-IsStuck p p' t ts locked move
    one p p' _ _ locked (Step.calls {ts = ts} others alive call) = Call-IsStuck p p' ts locked call

-- If a request is pending when `Stop` takes the lock, then, whatever the other goroutines do and
-- whatever is called, no call of RequestUserConfirmation returns a response any more, the only error
-- that one returns is that there is no callback, and the lock stays taken.
pub stop-IsStuck :
    (p p' p'' : Program) (ts others others' : List Thread)
    → p.handler.pending_requests ≢ []
    → Move p Thread.stopping p' ts
    → Steps p' others p'' others'
    → (p''.returned ≡ p.returned) × (p''.is_locked ≡ true) × Refuses p p''
stop-IsStuck p p' p'' ts others others' some_pending (Move.stop_returns h free e) steps =
    absurd (let w = cleanup_all-waits p.handler some_pending in cc)
stop-IsStuck p p' p'' ts others others' some_pending (Move.stop_waits free e) steps =
    let (same, still, refused) = Steps-IsStuck p' p'' others others' refl steps in
    (same, still, Refuses-trans p p' p'' (unrefused p p' refl) refused)
