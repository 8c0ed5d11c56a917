-- ===== src/Network/Confirmations/System.antt =====
-- The goroutines of internal/network/user_confirmation_handler.go, which run at the same time. A
-- step ends at the next use of the lock or of a channel.
use t_chat.Base.{
  ℕ, ◌≡◌, Bool, true, false, Option, none, some, List, [], ◌∷◌, ◌++◌, String, string_comparable,
  inl, inr, if◌then◌else◌, length, get_elem?, write_at_index, lookup,
}
use t_chat.Network.Outcome.{Outcome}
use t_chat.Network.Confirmations.{
  FileTransferRequest, ConfirmationResponse, ConfirmationRequest, ConfirmationHandler, Channel,
  RequestError, no_callback, already_pending, receive, new_confirmation_handler, set_callback,
  open_request, internal_error, timeout_response, stopped_response, canceled_response,
  set_response_ch, set_timeout_ch, send_response, send_timeout, cleanup_request, cancel_context,
  cleanup_all,
}

-- Where a goroutine is. The Boolean of a sender is whether a panic is recovered by a second try.
pub data Thread : Type 0 where
  asking : FileTransferRequest → Thread
  answering : String → ConfirmationResponse → Bool → Thread
  sending : String → ℕ → ConfirmationResponse → Bool → Thread
  timing : String → Thread
  signalling : ℕ → Thread
  waiting : FileTransferRequest → ℕ → Thread
  cleaning : FileTransferRequest → Option ConfirmationResponse → Thread
  stopping : Thread

-- `is_locked` is whether a goroutine that waits for ever holds the lock, `approved` are the requests
-- that the user has accepted, `returned` the responses that calls of `RequestUserConfirmation` have
-- returned, where no response is nil, and `refusals` the errors.
pub record Program : Type 0 where
  pub handler : ConfirmationHandler
  pub is_locked : Bool
  pub has_crashed : Bool
  pub approved : List FileTransferRequest
  pub returned : List (FileTransferRequest × Option ConfirmationResponse)
  pub refusals : List (FileTransferRequest × RequestError)

unfoldable pub new_program : Bool → Program
new_program has_callback = record {
  handler = new_confirmation_handler has_callback;
  is_locked = false;
  has_crashed = false;
  approved = [];
  returned = [];
  refusals = [];
}

abbrev pub with_handler : ConfirmationHandler → Program → Program
with_handler h p = record p { handler = h }

abbrev pub on_response_ch : ℕ → Channel ConfirmationResponse → Program → Program
on_response_ch i c p = record p {
  handler = record p.handler { requests = write_at_index i (set_response_ch c) p.handler.requests };
}

abbrev pub on_timeout_ch : ℕ → Channel (Unit {0}) → Program → Program
on_timeout_ch i c p = record p {
  handler = record p.handler { requests = write_at_index i (set_timeout_ch c) p.handler.requests };
}

-- A step of one goroutine, and the goroutines that it leaves.
pub data Move : Program → Thread → Program → List Thread → Type 0 where
  answers :
      {p : Program} (q : FileTransferRequest) (r : ConfirmationResponse)
      → Move p
          (asking q)
          (record p { approved = if r.accepted then q ∷ p.approved else p.approved })
          (answering q.file_id r true ∷ [])
  fails :
      {p : Program} (q : FileTransferRequest)
      → Move p (asking q) p (answering q.file_id internal_error false ∷ [])
  finds :
      {p : Program} (f : String) (r : ConfirmationResponse) (b : Bool) (i : ℕ)
      → p.is_locked ≡ false
      → lookup f p.handler.pending_requests ≡ some i
      → Move p (answering f r b) p (sending f i r b ∷ [])
  misses :
      {p : Program} (f : String) (r : ConfirmationResponse) (b : Bool)
      → p.is_locked ≡ false
      → lookup f p.handler.pending_requests ≡ none
      → Move p (answering f r b) p []
  sends :
      {p : Program} (f : String) (i : ℕ) (r : ConfirmationResponse) (b : Bool)
      (h : ConfirmationHandler)
      → send_response r i p.handler ≡ Outcome.returns h
      → Move p (sending f i r b) (with_handler h p) []
  recovers :
      {p : Program} (f : String) (i : ℕ) (r : ConfirmationResponse)
      → send_response r i p.handler ≡ Outcome.panics
      → Move p (sending f i r true) p (answering f internal_error false ∷ [])
  crashes :
      {p : Program} (f : String) (i : ℕ) (r : ConfirmationResponse)
      → send_response r i p.handler ≡ Outcome.panics
      → Move p (sending f i r false) (record p { has_crashed = true }) []
  fires :
      {p : Program} (f : String) (i : ℕ)
      → p.is_locked ≡ false
      → lookup f p.handler.pending_requests ≡ some i
      → Move p (timing f) p (signalling i ∷ [])
  fires_late :
      {p : Program} (f : String)
      → p.is_locked ≡ false
      → lookup f p.handler.pending_requests ≡ none
      → Move p (timing f) p []
  timer_stopped : {p : Program} (f : String) → p.handler.is_stopped ≡ true → Move p (timing f) p []
  signals :
      {p : Program} (i : ℕ) (h : ConfirmationHandler)
      → send_timeout i p.handler ≡ Outcome.returns h
      → Move p (signalling i) (with_handler h p) []
  signal_crashes :
      {p : Program} (i : ℕ)
      → send_timeout i p.handler ≡ Outcome.panics
      → Move p (signalling i) (record p { has_crashed = true }) []
  hears :
      {p : Program} (q : FileTransferRequest) (i : ℕ) (x : ConfirmationRequest)
      (o : Option ConfirmationResponse) (c : Channel ConfirmationResponse)
      → get_elem? p.handler.requests i ≡ some x
      → receive x.response_ch ≡ some (o, c)
      → Move p (waiting q i) (on_response_ch i c p) (cleaning q o ∷ [])
  times_out :
      {p : Program} (q : FileTransferRequest) (i : ℕ) (x : ConfirmationRequest)
      (o : Option (Unit {0})) (c : Channel (Unit {0}))
      → get_elem? p.handler.requests i ≡ some x
      → receive x.timeout_ch ≡ some (o, c)
      → Move p (waiting q i) (on_timeout_ch i c p) (cleaning q (some timeout_response) ∷ [])
  sees_stop :
      {p : Program} (q : FileTransferRequest) (i : ℕ)
      → p.handler.is_stopped ≡ true
      → Move p (waiting q i) p (cleaning q (some stopped_response) ∷ [])
  cleans :
      {p : Program} (q : FileTransferRequest) (o : Option ConfirmationResponse)
      (h : ConfirmationHandler)
      → p.is_locked ≡ false
      → cleanup_request false q.file_id p.handler ≡ Outcome.returns h
      → Move p (cleaning q o) (record p { handler = h; returned = (q, o) ∷ p.returned }) []
  cleanup_crashes :
      {p : Program} (q : FileTransferRequest) (o : Option ConfirmationResponse)
      → p.is_locked ≡ false
      → cleanup_request false q.file_id p.handler ≡ Outcome.panics
      → Move p (cleaning q o) (record p { has_crashed = true }) []
  stop_returns :
      {p : Program} (h : ConfirmationHandler)
      → p.is_locked ≡ false
      → cleanup_all p.handler ≡ Outcome.returns h
      → Move p stopping (with_handler h p) []
  stop_waits :
      {p : Program}
      → p.is_locked ≡ false
      → cleanup_all p.handler ≡ Outcome.waits
      → Move p stopping (record p { is_locked = true }) []

-- A call from outside, and the goroutines that it starts.
pub data Call : Program → Program → List Thread → Type 0 where
  requests :
      {p : Program} (now : ℕ) (q : FileTransferRequest) (h : ConfirmationHandler)
      → p.is_locked ≡ false
      → open_request now q p.handler ≡ inr h
      → Call p
          (with_handler h p)
          (timing q.file_id ∷ asking q ∷ waiting q (length p.handler.requests) ∷ [])
  lacks_callback :
      {p : Program} (q : FileTransferRequest)
      → p.handler.has_callback ≡ false
      → Call p (record p { refusals = (q, no_callback) ∷ p.refusals }) []
  finds_pending :
      {p : Program} (now : ℕ) (q : FileTransferRequest)
      → p.is_locked ≡ false
      → open_request now q p.handler ≡ inl already_pending
      → Call p (record p { refusals = (q, already_pending) ∷ p.refusals }) []
  cancels :
      {p : Program} (f : String) (i : ℕ)
      → p.is_locked ≡ false
      → lookup f p.handler.pending_requests ≡ some i
      → Call p p (answering f canceled_response false ∷ [])
  sets_callback :
      {p : Program} (b : Bool)
      → p.is_locked ≡ false
      → Call p (with_handler (set_callback b p.handler) p) []
  stops : {p : Program} → Call p (with_handler (cancel_context p.handler) p) (stopping ∷ [])

-- A step of the program, until it crashes.
pub data Step : Program → List Thread → Program → List Thread → Type 0 where
  moves :
      {p p' : Program} {t : Thread} {ts : List Thread} (left right : List Thread)
      → p.has_crashed ≡ false
      → Move p t p' ts
      → Step p (left ++ (t ∷ right)) p' (left ++ (ts ++ right))
  calls :
      {p p' : Program} {ts : List Thread} (others : List Thread)
      → p.has_crashed ≡ false
      → Call p p' ts
      → Step p others p' (ts ++ others)

pub data Steps : Program → List Thread → Program → List Thread → Type 0 where
  here : {p : Program} {ts : List Thread} → Steps p ts p ts
  further :
      {p p' p'' : Program} {ts ts' ts'' : List Thread}
      → Steps p ts p' ts'
      → Step p' ts' p'' ts''
      → Steps p ts p'' ts''
