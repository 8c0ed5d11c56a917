-- ===== src/Network/Confirmations/Operations.antt =====
-- What each operation of internal/network/user_confirmation_handler.go keeps: an answer that accepts
-- a file comes from the user.
use mathlib.Core.List.{Memᴰ}
use t_chat.Base.{
  ℕ, ◌≡◌, refl, sym, subst, inl, inr, Bool, true, false, Option, none, some, [], ◌∷◌, ◌++◌, String,
  string_comparable, arith, if◌then◌else◌, length, get_elem?, write_at_index, All-map,
  All-get_elem?, All-remove, lookup, remove, store, GoMap, Option-cases,
}
use t_chat.Network.Outcome.{Outcome}
use t_chat.Network.Confirmations.{
  FileTransferRequest, ConfirmationResponse, ConfirmationRequest, ConfirmationHandler, Channel,
  receive, new_confirmation_request, open_request, set_response_ch, set_timeout_ch, set_channels,
  send_response, send_timeout, cleanup_request, close_request, cleanup_all, cleanup_each,
}
use t_chat.Network.Confirmations.Channels.{
  receive-cases, send_response-cases, send_timeout-cases, close_request-cases,
}
use t_chat.Network.Confirmations.System.{Thread, Program, with_handler}
use t_chat.Network.Confirmations.Answers.{
  Approved, IsHeard, file_at, IsSound, Keeps, IsHeard-mono, IsKept, IsSound-same, IsSound-write,
}

-- A write that leaves the map alone.
pub set_ch-IsKept :
    (p : Program) (i : ℕ) (g : ConfirmationRequest → ConfirmationRequest)
    → ((x : ConfirmationRequest) → (g x).file_id ≡ x.file_id)
    → ((x : ConfirmationRequest)
        → get_elem? p.handler.requests i ≡ some x
        → IsHeard p.approved x.file_id x.response_ch.buffer
        → IsHeard p.approved x.file_id (g x).response_ch.buffer)
    → IsSound p
    → Keeps p
        (with_handler (record p.handler { requests = write_at_index i g p.handler.requests }) p)
      × IsSound
          (with_handler (record p.handler { requests = write_at_index i g p.handler.requests }) p)
set_ch-IsKept p i g same heard sound =
    IsSound-write p i g p.handler.pending_requests same heard sound.named sound

-- One more answer of the user.
pub approve-IsKept :
    (p : Program) (q : FileTransferRequest) (r : ConfirmationResponse)
    → IsSound p
    → IsKept p
        (record p { approved = if r.accepted then q ∷ p.approved else p.approved })
        (Thread.answering q.file_id r true ∷ [])
approve-IsKept p q r sound = (keeps, later sound, (heard, tt))
  where
    p' : Program
    p' = record p { approved = if r.accepted then q ∷ p.approved else p.approved }

    more :
        (b : Bool) (f : String)
        → Approved f p.approved
        → Approved f (if b then q ∷ p.approved else p.approved)
    more true f (q', m, e) = (q', Memᴰ.tail m, e)
    more false f a = a

    keeps : Keeps p p'
    keeps = record { approvals = more r.accepted; files = λ i f e. e }

    later : IsSound p → IsSound p'
    later s = record {
      named = s.named;
      heard =
          All-map _ _ p.handler.requests
            (λ x h. IsHeard-mono p p' x.file_id x.response_ch.buffer keeps h) s.heard;
      told = All-map _ _ p.returned (λ a h. IsHeard-mono p p' a.0.file_id a.1 keeps h) s.told;
    }

    heard : r.accepted ≡ true → Approved q.file_id p'.approved
    heard e = rw e (q, Memᴰ.head refl, refl)

-- An answer that is sent to a request of its file.
pub send_response-IsKept :
    (p : Program) (f : String) (i : ℕ) (r : ConfirmationResponse) (h : ConfirmationHandler)
    → send_response r i p.handler ≡ Outcome.returns h
    → file_at p.handler i ≡ some f
    → IsHeard p.approved f (some r)
    → IsSound p
    → IsKept p (with_handler h p) []
send_response-IsKept p f i r h e at good sound =
    let (x, c, found, result, buffer) = send_response-cases r i p.handler h e in
    let (k, s) =
      set_ch-IsKept p i (set_response_ch c) (λ x'. refl)
        (λ x' found' h.
          let same : x ≡ x' = cc in
          elim buffer [
            | inl new ↦ rw new (
                let file : f ≡ x'.file_id = at_file x' found' at in
                subst (λ g. IsHeard p.approved g (some r)) file good)
            | inr old ↦
                rw old
                  (subst (λ y. IsHeard p.approved x'.file_id y.response_ch.buffer) (sym same) h)
          ])
        sound in
    subst (λ h. IsKept p (with_handler h p) []) result (k, s, tt)
  where
    at_file :
        (x : ConfirmationRequest)
        → get_elem? p.handler.requests i ≡ some x
        → file_at p.handler i ≡ some f
        → f ≡ x.file_id
    at_file x found at = ground (arith, found)

pub send_timeout-IsKept :
    (p : Program) (i : ℕ) (h : ConfirmationHandler)
    → send_timeout i p.handler ≡ Outcome.returns h
    → IsSound p
    → IsKept p (with_handler h p) []
send_timeout-IsKept p i h e sound =
    let (c, result) = send_timeout-cases i p.handler h e in
    let (k, s) = set_ch-IsKept p i (set_timeout_ch c) (λ x. refl) (λ x found h. h) sound in
    subst (λ h. IsKept p (with_handler h p) []) result (k, s, tt)

cleanup_request-Keeps :
    (p : Program) (f : String) (h : ConfirmationHandler)
    → cleanup_request false f p.handler ≡ Outcome.returns h
    → IsSound p
    → Keeps p (with_handler h p) × IsSound (with_handler h p)
unfolding cleanup_request
cleanup_request-Keeps p f h e sound = elim (Option-cases (lookup f p.handler.pending_requests)) [
  | inl absent ↦
      let same : p.handler ≡ h = unchanged absent e in
      subst (λ h. Keeps p (with_handler h p) × IsSound (with_handler h p)) same
        (IsSound-same p (with_handler p.handler p) refl refl refl refl sound)
  | inr (i, present) ↦
      let (x, c, d, found, result, buffer) =
        close_request-cases f i p.handler h (closed i present e) in
      subst (λ h. Keeps p (with_handler h p) × IsSound (with_handler h p)) result
        (IsSound-write p i (set_channels c d) (remove f p.handler.pending_requests) (λ x'. refl)
          (λ x' found' h.
            let same : x ≡ x' = cc in
            rw buffer
              (subst (λ y. IsHeard p.approved x'.file_id y.response_ch.buffer) (sym same) h))
          (All-remove _ f p.handler.pending_requests sound.named) sound)
]
  where
    unchanged :
        lookup f p.handler.pending_requests ≡ none
        → cleanup_request false f p.handler ≡ Outcome.returns h
        → p.handler ≡ h
    unchanged absent e = ground (arith, absent)

    closed :
        (i : ℕ)
        → lookup f p.handler.pending_requests ≡ some i
        → cleanup_request false f p.handler ≡ Outcome.returns h
        → close_request f i p.handler ≡ Outcome.returns h
    closed i present e = ground (arith, present)

-- What the clean-up does, and what it leaves to return.
pub cleanup_request-IsKept :
    (p : Program) (q : FileTransferRequest) (o : Option ConfirmationResponse)
    (h : ConfirmationHandler)
    → cleanup_request false q.file_id p.handler ≡ Outcome.returns h
    → IsHeard p.approved q.file_id o
    → IsSound p
    → IsKept p (record p { handler = h; returned = (q, o) ∷ p.returned }) []
cleanup_request-IsKept p q o h e good sound =
    let (k, s) = cleanup_request-Keeps p q.file_id h e sound in
    (
      record { approvals = k.approvals; files = k.files },
      record { named = s.named; heard = s.heard; told = (good, s.told) },
      tt,
    )

-- Where `Stop` returns, it has found nothing to clean up.
pub cleanup_all-same : (h h' : ConfirmationHandler) → cleanup_all h ≡ Outcome.returns h' → h ≡ h'
unfolding cleanup_all cleanup_each cleanup_request
cleanup_all-same h h' e = from h.pending_requests e
  where
    from : (m : GoMap String ℕ) → cleanup_each m h ≡ Outcome.returns h' → h ≡ h'
    from [] e = cc
    from ((f, i) ∷ rest) e = absurd (cc)

-- The answer that a receive takes out, and the channel that it leaves.
pub hears-IsKept :
    (p : Program) (q : FileTransferRequest) (i : ℕ) (x : ConfirmationRequest)
    (o : Option ConfirmationResponse) (c : Channel ConfirmationResponse)
    → get_elem? p.handler.requests i ≡ some x
    → receive x.response_ch ≡ some (o, c)
    → file_at p.handler i ≡ some q.file_id
    → IsSound p
    → IsKept p
        (with_handler
          (record p.handler { requests = write_at_index i (set_response_ch c) p.handler.requests })
          p)
        (Thread.cleaning q o ∷ [])
hears-IsKept p q i x o c found e at sound =
    let (taken, empty) = receive-cases x.response_ch c o e in
    let (k, s) =
      set_ch-IsKept p i (set_response_ch c) (λ x'. refl) (λ x' found' h. rw empty tt) sound in
    let file : x.file_id ≡ q.file_id = at_file at in
    (
      k,
      s,
      (
        rw taken (
            subst (λ g. IsHeard p.approved g x.response_ch.buffer) file
              (All-get_elem? _ i p.handler.requests sound.heard found)),
        tt,
      ),
    )
  where
    at_file : file_at p.handler i ≡ some q.file_id → x.file_id ≡ q.file_id
    at_file at = ground (arith, found)

-- A request that is let through is new.
pub open_request-opened :
    (now : ℕ) (q : FileTransferRequest) (h h' : ConfirmationHandler)
    → open_request now q h ≡ inr h'
    → record h {
      requests = h.requests ++ (new_confirmation_request now q ∷ []);
      pending_requests = store q.file_id (length h.requests) h.pending_requests;
    }
      ≡ h'
unfolding open_request
open_request-opened now q h h' e = ground arith
