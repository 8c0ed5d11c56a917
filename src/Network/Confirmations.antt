-- ===== src/Network/Confirmations.antt =====
-- Asking the user whether to take a file: internal/network/user_confirmation_handler.go. The
-- objects of type ConfirmationRequest lie in a store, and the map holds their addresses, since
-- goroutines share them. The logger and the notifications are not modelled.
pub mod System
pub mod Channels
pub mod Answers
pub mod Operations
pub mod Consent
pub mod Owners
pub mod Stopping
use t_chat.Base.{
  ℕ, Bool, true, false, Option, none, some, List, [], ◌∷◌, ◌++◌, String, string_comparable, ◌⊎◌,
  inl, inr, if◌then◌else◌, length, get_elem?, write_at_index, GoMap, lookup, store, remove,
}
use t_chat.Network.Outcome.{Outcome, returns, panics, waits, ◌>>=◌, load_at}

pub record FileTransferRequest : Type 0 where
  pub file_id : String
  pub sender_id : String
  pub receiver_id : String
  pub file_name : String
  pub file_size : ℕ
  pub file_path : String
  pub chunk_count : ℕ
  pub from_addr : String
  pub from_user : String
  pub checksum : String
  pub encrypted : Bool
  pub request_time : ℕ

pub record ConfirmationResponse : Type 0 where
  pub accepted : Bool
  pub reason : String
  pub error : Option String

-- A channel with room for one value.
pub record Channel (A : Type 0) : Type 0 where
  pub buffer : Option A
  pub is_closed : Bool

abbrev pub make_channel : {A : Type 0} → Channel A
make_channel = record { buffer = none; is_closed = false }

-- A receive: `none` while it waits, and no value from a closed channel.
unfoldable pub receive : {A : Type 0} → Channel A → Option (Option A × Channel A)
receive c = elim c.buffer [
  | some a ↦ some (some a, record c { buffer = none })
  | none ↦ if c.is_closed then some (none, c) else none
]

-- A send under a `default`: a full channel stays as it is.
unfoldable pub try_send : {A : Type 0} → A → Channel A → Outcome (Channel A)
try_send a c =
    if c.is_closed
    then panics
    else elim c.buffer [ none ↦ returns (record c { buffer = some a }) | some b ↦ returns c ]

unfoldable pub close : {A : Type 0} → Channel A → Outcome (Channel A)
close c = if c.is_closed then panics else returns (record c { is_closed = true })

pub record ConfirmationRequest : Type 0 where
  pub file_id : String
  pub request : FileTransferRequest
  pub response_ch : Channel ConfirmationResponse
  pub timeout_ch : Channel (Unit {0})
  pub created_at : ℕ

-- `requests` is the store, and `is_stopped` whether the context is done.
pub record ConfirmationHandler : Type 0 where
  pub has_callback : Bool
  pub pending_requests : GoMap String ℕ
  pub requests : List ConfirmationRequest
  pub confirmation_timeout : ℕ
  pub is_stopped : Bool

unfoldable pub new_confirmation_handler : Bool → ConfirmationHandler
new_confirmation_handler has_callback = record {
  has_callback = has_callback;
  pending_requests = [];
  requests = [];
  confirmation_timeout = 30000000000;
  is_stopped = false;
}

unfoldable pub set_callback : Bool → ConfirmationHandler → ConfirmationHandler
set_callback has_callback h = record h { has_callback = has_callback }

unfoldable pub set_confirmation_timeout : ℕ → ConfirmationHandler → ConfirmationHandler
set_confirmation_timeout timeout h = record h { confirmation_timeout = timeout }

pub data RequestError : Type 0 where
  no_callback : RequestError
  already_pending : RequestError

unfoldable pub new_confirmation_request : ℕ → FileTransferRequest → ConfirmationRequest
new_confirmation_request now q = record {
  file_id = q.file_id;
  request = q;
  response_ch = make_channel;
  timeout_ch = make_channel;
  created_at = now;
}

-- `RequestUserConfirmation` up to its goroutines.
unfoldable pub open_request :
    ℕ → FileTransferRequest → ConfirmationHandler → RequestError ⊎ ConfirmationHandler
unfolding new_confirmation_request
open_request now q h =
    if h.has_callback
    then elim (lookup q.file_id h.pending_requests) [
      | some i ↦ inl already_pending
      | none ↦ inr (record h {
        requests = h.requests ++ (new_confirmation_request now q ∷ []);
        pending_requests = store q.file_id (length h.requests) h.pending_requests;
      })
    ]
    else inl no_callback

abbrev pub internal_error : ConfirmationResponse
internal_error = record {
  accepted = false;
  reason = "internal error";
  error = some "callback panic";
}

abbrev pub timeout_response : ConfirmationResponse
timeout_response = record {
  accepted = false;
  reason = "confirmation timeout";
  error = some "user confirmation timeout";
}

abbrev pub stopped_response : ConfirmationResponse
stopped_response = record {
  accepted = false;
  reason = "handler stopped";
  error = some "confirmation handler stopped";
}

abbrev pub canceled_response : ConfirmationResponse
canceled_response = record {
  accepted = false;
  reason = "canceled";
  error = some "confirmation canceled";
}

abbrev pub set_response_ch :
    Channel ConfirmationResponse → ConfirmationRequest → ConfirmationRequest
set_response_ch c r = record r { response_ch = c }

abbrev pub set_timeout_ch : Channel (Unit {0}) → ConfirmationRequest → ConfirmationRequest
set_timeout_ch c r = record r { timeout_ch = c }

abbrev pub set_channels :
    Channel ConfirmationResponse → Channel (Unit {0}) → ConfirmationRequest → ConfirmationRequest
set_channels c d r = record r { response_ch = c; timeout_ch = d }

-- The send of `sendResponse` to the request that it has found.
unfoldable pub send_response :
    ConfirmationResponse → ℕ → ConfirmationHandler → Outcome ConfirmationHandler
unfolding try_send
send_response response i h = do
  r ← load_at i h.requests
  c ← try_send response r.response_ch
  returns (record h { requests = write_at_index i (set_response_ch c) h.requests })

-- The send of `startConfirmationTimeout` to the request that it has found.
unfoldable pub send_timeout : ℕ → ConfirmationHandler → Outcome ConfirmationHandler
unfolding try_send
send_timeout i h = do
  r ← load_at i h.requests
  c ← try_send tt r.timeout_ch
  returns (record h { requests = write_at_index i (set_timeout_ch c) h.requests })

-- Closing the channels of a request, and deleting its entry.
unfoldable pub close_request : String → ℕ → ConfirmationHandler → Outcome ConfirmationHandler
unfolding close
close_request file_id i h = do
  r ← load_at i h.requests
  c ← close r.response_ch
  d ← close r.timeout_ch
  returns (record h {
    requests = write_at_index i (set_channels c d) h.requests;
    pending_requests = remove file_id h.pending_requests;
  })

-- `cleanupRequest`, where its own goroutine holds the lock or not.
unfoldable pub cleanup_request : Bool → String → ConfirmationHandler → Outcome ConfirmationHandler
unfolding close_request
cleanup_request true file_id h = waits
cleanup_request false file_id h = elim (lookup file_id h.pending_requests) [
  | none ↦ returns h
  | some i ↦ close_request file_id i h
]

-- The loop of `Stop`, which holds the lock.
unfoldable pub cleanup_each : GoMap String ℕ → ConfirmationHandler → Outcome ConfirmationHandler
unfolding cleanup_request
cleanup_each [] h = returns h
cleanup_each ((file_id, i) ∷ rest) h = cleanup_request true file_id h >>= cleanup_each rest

-- What `Stop` does before it takes the lock.
unfoldable pub cancel_context : ConfirmationHandler → ConfirmationHandler
cancel_context h = record h { is_stopped = true }

-- What `Stop` does under the lock.
unfoldable pub cleanup_all : ConfirmationHandler → Outcome ConfirmationHandler
unfolding cleanup_each
cleanup_all h = cleanup_each h.pending_requests h

unfoldable pub get_pending_requests :
    GoMap String ℕ → List ConfirmationRequest → GoMap String FileTransferRequest
get_pending_requests [] requests = []
get_pending_requests ((file_id, i) ∷ rest) requests = elim (get_elem? requests i) [
  | none ↦ get_pending_requests rest requests
  | some r ↦ (file_id, r.request) ∷ get_pending_requests rest requests
]
