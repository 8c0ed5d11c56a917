-- ===== src/Network/Confirmations/Consent.antt =====
-- Every run of the goroutines of internal/network/user_confirmation_handler.go: a file is accepted
-- only if the user has accepted it.
use mathlib.Core.List.{Memᴰ}
use t_chat.Base.{
  ℕ, ◌≡◌, refl, sym, subst, inr, Bool, true, false, some, List, [], ◌∷◌, ◌++◌, String,
  string_comparable, length, field_at-append, field_at-last, All, All-map, All-split, All-lookup,
  All-append, All-store, Memᴰ-All,
}
use t_chat.Network.Confirmations.{
  FileTransferRequest, ConfirmationResponse, ConfirmationHandler, new_confirmation_handler,
  new_confirmation_request, set_callback, open_request, internal_error, timeout_response,
  stopped_response, canceled_response, set_timeout_ch, cancel_context,
}
use t_chat.Network.Confirmations.System.{
  Thread, Program, new_program, with_handler, Move, Call, Step, Steps,
}
use t_chat.Network.Confirmations.Answers.{
  IsHeard, IsSound, IsRight, IsRight-mono, IsKept, IsSound-same,
}
use t_chat.Network.Confirmations.Operations.{
  approve-IsKept, send_response-IsKept, send_timeout-IsKept, cleanup_request-IsKept,
  cleanup_all-same, hears-IsKept, set_ch-IsKept, open_request-opened,
}

-- A step that leaves the program, but for whether it has crashed and is locked.
still :
    (p p' : Program) (ts : List Thread)
    → p'.handler ≡ p.handler
    → p'.approved ≡ p.approved
    → p'.returned ≡ p.returned
    → All (IsRight p) ts
    → IsSound p
    → IsKept p p' ts
still p p' ts handler approved returned right sound =
    let (k, s) = IsSound-same p p' (rw handler refl) (rw handler refl) approved returned sound in
    (k, s, All-map _ _ ts (λ t h. IsRight-mono p p' t k h) right)

no :
    (p : Program) (f : String) (r : ConfirmationResponse)
    → r.accepted ≡ false
    → IsHeard p.approved f (some r)
no p f r e = λ e'. absurd (cc)

Move-IsKept :
    (p p' : Program) (t : Thread) (ts : List Thread)
    → Move p t p' ts
    → IsSound p
    → IsRight p t
    → IsKept p p' ts
Move-IsKept p p' t ts (Move.answers q r) sound right = approve-IsKept p q r sound
Move-IsKept p p' t ts (Move.fails q) sound right =
    still p p ts refl refl refl (no p q.file_id internal_error refl, tt) sound
Move-IsKept p p' t ts (Move.finds f r b i free e) sound right =
    still p p ts refl refl refl
      ((All-lookup _ f p.handler.pending_requests sound.named e, right), tt) sound
Move-IsKept p p' t ts (Move.misses f r b free e) sound right = still p p ts refl refl refl tt sound
Move-IsKept p p' t ts (Move.sends f i r b h e) sound right =
    send_response-IsKept p f i r h e right.0 right.1 sound
Move-IsKept p p' t ts (Move.recovers f i r e) sound right =
    still p p ts refl refl refl (no p f internal_error refl, tt) sound
Move-IsKept p p' t ts (Move.crashes f i r e) sound right = still p p' ts refl refl refl tt sound
Move-IsKept p p' t ts (Move.fires f i free e) sound right =
    still p p ts refl refl refl (tt, tt) sound
Move-IsKept p p' t ts (Move.fires_late f free e) sound right = still p p ts refl refl refl tt sound
Move-IsKept p p' t ts (Move.timer_stopped f e) sound right = still p p ts refl refl refl tt sound
Move-IsKept p p' t ts (Move.signals i h e) sound right = send_timeout-IsKept p i h e sound
Move-IsKept p p' t ts (Move.signal_crashes i e) sound right = still p p' ts refl refl refl tt sound
Move-IsKept p p' t ts (Move.hears q i x o c found e) sound right =
    hears-IsKept p q i x o c found e right sound
Move-IsKept p p' t ts (Move.times_out q i x o c found e) sound right =
    let (k, s) = set_ch-IsKept p i (set_timeout_ch c) (λ x'. refl) (λ x' found' h. h) sound in
    (k, s, (no p q.file_id timeout_response refl, tt))
Move-IsKept p p' t ts (Move.sees_stop q i e) sound right =
    still p p ts refl refl refl (no p q.file_id stopped_response refl, tt) sound
Move-IsKept p p' t ts (Move.cleans q o h free e) sound right =
    cleanup_request-IsKept p q o h e right sound
Move-IsKept p p' t ts (Move.cleanup_crashes q o free e) sound right =
    still p p' ts refl refl refl tt sound
Move-IsKept p p' t ts (Move.stop_returns h free e) sound right =
    still p p' ts (sym (cleanup_all-same p.handler h e)) refl refl tt sound
Move-IsKept p p' t ts (Move.stop_waits free e) sound right = still p p' ts refl refl refl tt sound

open_request-IsKept :
    (p : Program) (now : ℕ) (q : FileTransferRequest) (h : ConfirmationHandler)
    → open_request now q p.handler ≡ inr h
    → IsSound p
    → IsKept p (with_handler h p) (
        Thread.timing q.file_id
        ∷ Thread.asking q
        ∷ Thread.waiting q (length p.handler.requests)
        ∷ [])
unfolding new_confirmation_request
open_request-IsKept p now q h e sound =
    subst
      (λ h. IsKept p (with_handler h p) (
        Thread.timing q.file_id
        ∷ Thread.asking q
        ∷ Thread.waiting q (length p.handler.requests)
        ∷ []))
      (open_request-opened now q p.handler h e)
      (
        record {
          approvals = λ f a. a;
          files = λ i f at. field_at-append (λ x. x.file_id) p.handler.requests _ i f at;
        },
        record {
          named =
              All-store _ q.file_id (length p.handler.requests) p.handler.pending_requests
                (field_at-last (λ x. x.file_id) p.handler.requests (new_confirmation_request now q))
                (All-map _ _ p.handler.pending_requests
                  (λ kv at. field_at-append (λ x. x.file_id) p.handler.requests _ kv.1 kv.0 at)
                  sound.named);
          heard = All-append _ p.handler.requests _ sound.heard (tt, tt);
          told = sound.told;
        },
        (
          tt,
          (
            tt,
            (
              field_at-last (λ x. x.file_id) p.handler.requests (new_confirmation_request now q),
              tt,
            ),
          ),
        ),
      )

Call-IsKept : (p p' : Program) (ts : List Thread) → Call p p' ts → IsSound p → IsKept p p' ts
unfolding set_callback cancel_context
Call-IsKept p p' ts (Call.requests now q h free e) sound = open_request-IsKept p now q h e sound
Call-IsKept p p' ts (Call.cancels f i free e) sound =
    still p p ts refl refl refl (no p f canceled_response refl, tt) sound
Call-IsKept p p' ts (Call.lacks_callback q e) sound =
    let (k, s) = IsSound-same p p' refl refl refl refl sound in (k, s, tt)
Call-IsKept p p' ts (Call.finds_pending now q free e) sound =
    let (k, s) = IsSound-same p p' refl refl refl refl sound in (k, s, tt)
Call-IsKept p p' ts (Call.sets_callback b free) sound =
    let (k, s) = IsSound-same p p' refl refl refl refl sound in (k, s, tt)
Call-IsKept p p' ts Call.stops sound =
    let (k, s) = IsSound-same p p' refl refl refl refl sound in (k, s, (tt, tt))

Step-IsSound :
    (p p' : Program) (ts ts' : List Thread)
    → Step p ts p' ts'
    → IsSound p × All (IsRight p) ts
    → IsSound p' × All (IsRight p') ts'
Step-IsSound p p' _ _ (Step.moves {t = t} {ts = ts} left right alive move) (sound, all) =
    let (before, this, after) = All-split (IsRight p) left t right all in
    let (k, s, new) = Move-IsKept p p' t ts move sound this in
    (
      s,
      All-append _ left (ts ++ right) (All-map _ _ left (λ t h. IsRight-mono p p' t k h) before)
          (All-append _ ts right new (All-map _ _ right (λ t h. IsRight-mono p p' t k h) after)),
    )
Step-IsSound p p' _ _ (Step.calls {ts = ts} others alive call) (sound, all) =
    let (k, s, new) = Call-IsKept p p' ts call sound in
    (s, All-append _ ts others new (All-map _ _ others (λ t h. IsRight-mono p p' t k h) all))

Steps-IsSound :
    (p p' : Program) (ts ts' : List Thread)
    → Steps p ts p' ts'
    → IsSound p × All (IsRight p) ts
    → IsSound p' × All (IsRight p') ts'
Steps-IsSound p p' ts ts' Steps.here h = h
Steps-IsSound p p'' ts ts'' (Steps.further {p' = p'} {ts' = ts'} steps step) h =
    Step-IsSound p' p'' ts' ts'' step (Steps-IsSound p p' ts ts' steps h)

-- However the goroutines and the calls take their turns, RequestUserConfirmation returns a response
-- that accepts a file only if the user has accepted a request for this file, though maybe another
-- request.
pub returned-approved :
    (has_callback : Bool) (p : Program) (ts : List Thread) (q : FileTransferRequest)
    (r : ConfirmationResponse)
    → Steps (new_program has_callback) [] p ts
    → Memᴰ (q, some r) p.returned
    → r.accepted ≡ true
    → (q' : FileTransferRequest) × Memᴰ q' p.approved × (q'.file_id ≡ q.file_id)
unfolding new_program new_confirmation_handler
returned-approved has_callback p ts q r steps told yes_ =
    let (sound, right) =
      Steps-IsSound (new_program has_callback) p [] ts steps
        (record { named = tt; heard = tt; told = tt }, tt) in
    Memᴰ-All _ (q, some r) p.returned told sound.told yes_
