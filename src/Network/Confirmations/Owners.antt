-- ===== src/Network/Confirmations/Owners.antt =====
-- Who looks after the pending requests of internal/network/user_confirmation_handler.go.
use t_chat.Base.{
  ℕ, ◌+◌, ◌≤◌, ◌≡◌, refl, ap, inl, inr, Bool, false, none, some, List, [], ◌∷◌, ◌++◌, String,
  string_comparable, arith, ◌==◌, if◌then◌else◌, lookup, lookup-store, lookup-remove, remove, store,
  GoMap, Option-cases, length,
}
use t_chat.Network.Outcome.{Outcome}
use t_chat.Network.Confirmations.{
  FileTransferRequest, ConfirmationHandler, new_confirmation_handler, set_callback, open_request,
  cleanup_request, close_request, cancel_context,
}
use t_chat.Network.Confirmations.Channels.{
  send_response-cases, send_timeout-cases, close_request-cases,
}
use t_chat.Network.Confirmations.Operations.{cleanup_all-same, open_request-opened}
use t_chat.Network.Confirmations.System.{Thread, Program, new_program, Move, Call, Step, Steps}

-- Whether a goroutine is a call of `RequestUserConfirmation` for the file.
abbrev owns : String → Thread → ℕ
owns f (Thread.asking q) = 0
owns f (Thread.answering g r b) = 0
owns f (Thread.sending g i r b) = 0
owns f (Thread.timing g) = 0
owns f (Thread.signalling i) = 0
owns f (Thread.waiting q i) = if q.file_id == f then 1 else 0
owns f (Thread.cleaning q o) = if q.file_id == f then 1 else 0
owns f Thread.stopping = 0

-- The number of the calls of `RequestUserConfirmation` for the file.
unfoldable pub owners : String → List Thread → ℕ
owners f [] = 0
owners f (t ∷ ts) = owns f t + owners f ts

abbrev pub pending_count : String → ConfirmationHandler → ℕ
pending_count f h = elim (lookup f h.pending_requests) [ none ↦ 0 | some i ↦ 1 ]

owners-append : (f : String) (xs ys : List Thread) → owners f (xs ++ ys) ≡ owners f xs + owners f ys
unfolding owners
owners-append f [] ys = omega arith
owners-append f (x ∷ xs) ys = omega (arith, owners-append f xs ys)

-- The clean-up of a file takes its entry, and leaves the others.
cleanup_request-count :
    (f g : String) (h h' : ConfirmationHandler)
    → cleanup_request false g h ≡ Outcome.returns h'
    → (if g == f then 1 else 0) ≤ pending_count f h
    → pending_count f h ≡ (if g == f then 1 else 0) + pending_count f h'
unfolding cleanup_request
cleanup_request-count f g h h' e owned = elim (Option-cases (lookup g h.pending_requests)) [
  | inl absent ↦ unchanged absent e
  | inr (i, present) ↦
      let (x, c, d, found, result, buffer) = close_request-cases g i h h' (closed i present e) in
      let same : remove g h.pending_requests ≡ h'.pending_requests =
        ap (λ (k : ConfirmationHandler). k.pending_requests) result in
      removed i present h'.pending_requests same
]
  where
    unchanged :
        lookup g h.pending_requests ≡ none
        → cleanup_request false g h ≡ Outcome.returns h'
        → pending_count f h ≡ (if g == f then 1 else 0) + pending_count f h'
    unchanged absent e =
        let same : h ≡ h' = ground (arith, absent) in
        rw (← same) (ground (arith, absent, string_comparable.equals_iff g f, owned))

    closed :
        (i : ℕ)
        → lookup g h.pending_requests ≡ some i
        → cleanup_request false g h ≡ Outcome.returns h'
        → close_request g i h ≡ Outcome.returns h'
    closed i present e = ground (arith, present)

    removed :
        (i : ℕ)
        → lookup g h.pending_requests ≡ some i
        → (m : GoMap String ℕ) → remove g h.pending_requests ≡ m
        → pending_count f h
          ≡ (if g == f then 1 else 0) + elim (lookup f m) [ none ↦ 0 | some i ↦ 1 ]
    removed i present m same = rw (← same) (
        ground
          (arith, present, lookup-remove g f h.pending_requests, string_comparable.equals_iff g f))

open_request-count :
    (f : String) (now : ℕ) (q : FileTransferRequest) (h h' : ConfirmationHandler)
    → open_request now q h ≡ inr h'
    → (if q.file_id == f then 1 else 0) + pending_count f h ≡ pending_count f h'
unfolding open_request
open_request-count f now q h h' e =
    let same : store q.file_id (length h.requests) h.pending_requests ≡ h'.pending_requests =
      ap (λ (k : ConfirmationHandler). k.pending_requests) (open_request-opened now q h h' e) in
    rw (← same) (
      ground (
        arith,
        e,
        lookup-store q.file_id f (length h.requests) h.pending_requests,
        string_comparable.equals_iff q.file_id f,
      ))

-- The calls that wait for a file and its entries change together.
abbrev IsBalanced : String → Program → Thread → Program → List Thread → Type 0
IsBalanced f p t p' ts =
    pending_count f p.handler + owners f ts ≡ owns f t + pending_count f p'.handler

same_count :
    (f : String) (h h' : ConfirmationHandler)
    → h.pending_requests ≡ h'.pending_requests
    → pending_count f h ≡ pending_count f h'
same_count f h h' e = rw e refl

Move-IsBalanced :
    (f : String) (p p' : Program) (t : Thread) (ts : List Thread)
    → Move p t p' ts
    → p'.has_crashed ≡ false
    → owns f t ≤ pending_count f p.handler
    → IsBalanced f p t p' ts
unfolding owners
Move-IsBalanced f p p' t ts (Move.answers q r) alive owned = omega arith
Move-IsBalanced f p p' t ts (Move.fails q) alive owned = omega arith
Move-IsBalanced f p p' t ts (Move.finds g r b i free e) alive owned = omega arith
Move-IsBalanced f p p' t ts (Move.misses g r b free e) alive owned = omega arith
Move-IsBalanced f p p' t ts (Move.sends g i r b h e) alive owned =
    let (x, c, found, result, buffer) = send_response-cases r i p.handler h e in
    omega (
      arith,
      same_count f p.handler h (ap (λ (k : ConfirmationHandler). k.pending_requests) result),
    )
Move-IsBalanced f p p' t ts (Move.recovers g i r e) alive owned = omega arith
Move-IsBalanced f p p' t ts (Move.crashes g i r e) alive owned = absurd (cc)
Move-IsBalanced f p p' t ts (Move.fires g i free e) alive owned = omega arith
Move-IsBalanced f p p' t ts (Move.fires_late g free e) alive owned = omega arith
Move-IsBalanced f p p' t ts (Move.timer_stopped g e) alive owned = omega arith
Move-IsBalanced f p p' t ts (Move.signals i h e) alive owned =
    let (c, result) = send_timeout-cases i p.handler h e in
    omega (
      arith,
      same_count f p.handler h (ap (λ (k : ConfirmationHandler). k.pending_requests) result),
    )
Move-IsBalanced f p p' t ts (Move.signal_crashes i e) alive owned = absurd (cc)
Move-IsBalanced f p p' t ts (Move.hears q i x o c found e) alive owned = omega arith
Move-IsBalanced f p p' t ts (Move.times_out q i x o c found e) alive owned = omega arith
Move-IsBalanced f p p' t ts (Move.sees_stop q i e) alive owned = omega arith
Move-IsBalanced f p p' t ts (Move.cleans q o h free e) alive owned =
    omega (arith, cleanup_request-count f q.file_id p.handler h e owned)
Move-IsBalanced f p p' t ts (Move.cleanup_crashes q o free e) alive owned = absurd (cc)
Move-IsBalanced f p p' t ts (Move.stop_returns h free e) alive owned = omega (
  arith,
  same_count f p.handler h
      (ap (λ (k : ConfirmationHandler). k.pending_requests) (cleanup_all-same p.handler h e)),
)
Move-IsBalanced f p p' t ts (Move.stop_waits free e) alive owned = omega arith

Call-IsBalanced :
    (f : String) (p p' : Program) (ts : List Thread)
    → Call p p' ts
    → pending_count f p.handler + owners f ts ≡ pending_count f p'.handler
unfolding owners set_callback cancel_context
Call-IsBalanced f p p' ts (Call.requests now q h free e) =
    omega (arith, open_request-count f now q p.handler h e)
Call-IsBalanced f p p' ts (Call.cancels g i free e) = omega arith
Call-IsBalanced f p p' ts (Call.lacks_callback q e) = omega arith
Call-IsBalanced f p p' ts (Call.finds_pending now q free e) = omega arith
Call-IsBalanced f p p' ts (Call.sets_callback b free) = omega arith
Call-IsBalanced f p p' ts Call.stops = omega arith

Step-owners :
    (f : String) (p p' : Program) (ts ts' : List Thread)
    → Step p ts p' ts'
    → p'.has_crashed ≡ false
    → owners f ts ≡ pending_count f p.handler
    → owners f ts' ≡ pending_count f p'.handler
unfolding owners
Step-owners f p p' _ _ (Step.moves {t = t} {ts = ts} left right before move) alive balanced =
    let all = owners-append f left (t ∷ right) in
    omega (
      arith,
      all,
      owners-append f left (ts ++ right),
      owners-append f ts right,
      Move-IsBalanced f p p' t ts move alive (omega (arith, all)),
    )
Step-owners f p p' _ _ (Step.calls {ts = ts} others before call) alive balanced =
    omega (arith, owners-append f ts others, Call-IsBalanced f p p' ts call)

crash_free : (p p' : Program) (ts ts' : List Thread) → Step p ts p' ts' → p.has_crashed ≡ false
crash_free p p' _ _ (Step.moves left right before move) = before
crash_free p p' _ _ (Step.calls others before call) = before

-- However the goroutines and the calls take their turns, as long as the program has not crashed, a
-- file is pending exactly while one call of RequestUserConfirmation for it has not returned, and
-- there are never two such calls for one file.
pub owners_lem :
    (has_callback : Bool) (f : String) (p : Program) (ts : List Thread)
    → Steps (new_program has_callback) [] p ts
    → p.has_crashed ≡ false
    → owners f ts ≡ elim (lookup f p.handler.pending_requests) [ none ↦ 0 | some i ↦ 1 ]
unfolding owners new_program new_confirmation_handler lookup
owners_lem has_callback f p ts steps alive =
    from (new_program has_callback) p [] ts steps start alive
  where
    start : owners f [] ≡ pending_count f (new_program has_callback).handler
    start = refl

    from :
        (p p' : Program) (ts ts' : List Thread)
        → Steps p ts p' ts'
        → owners f ts ≡ pending_count f p.handler
        → p'.has_crashed ≡ false
        → owners f ts' ≡ pending_count f p'.handler
    from p p' ts ts' Steps.here balanced alive = balanced
    from p p'' ts ts'' (Steps.further {p' = p'} {ts' = ts'} steps step) balanced alive =
        Step-owners f p' p'' ts' ts'' step alive
          (from p p' ts ts' steps balanced (crash_free p' p'' ts' ts'' step))
