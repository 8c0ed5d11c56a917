-- ===== src/Network/Pings.antt =====
-- Pings and their answers: internal/network/ping_manager.go. The objects of type PingRequest lie in
-- a store, and the map holds their addresses, since goroutines share them. The logger is left out.
pub mod Steps
pub mod Kept
pub mod Answered
use t_chat.Base.{
  ℕ, ◌+◌, ◌-◌, Bool, true, false, not, Option, none, some, List, [], ◌∷◌, ◌++◌, String,
  string_comparable, ltb, if◌then◌else◌, length, get_elem?, write_at_index, GoMap, lookup, store,
  remove, keep_values,
}
use t_chat.Network.Outcome.{Outcome, returns, panics, ◌>>=◌, load_at}
use t_chat.Network.Confirmations.{Channel, make_channel, try_send, close}

pub record PingResponse : Type 0 where
  pub ping_id : String
  pub sender : String
  pub receiver : String
  pub latency : ℕ
  pub success : Bool
  pub timestamp : ℕ
  pub error : Option String

pub record PingRequest : Type 0 where
  pub id : String
  pub target : String
  pub timeout : ℕ
  pub start_time : ℕ
  pub response_chan : Channel PingResponse

-- `requests` is the store, `address` the own address, and `is_stopped` whether the context is done.
pub record PingManager : Type 0 where
  pub pending_pings : GoMap String ℕ
  pub requests : List PingRequest
  pub address : String
  pub is_stopped : Bool

unfoldable pub new_ping_manager : String → PingManager
new_ping_manager address = record {
  pending_pings = [];
  requests = [];
  address = address;
  is_stopped = false;
}

-- SendPing up to the sending of the message: the new request is the last one of the store.
unfoldable pub register_ping : ℕ → String → String → ℕ → PingManager → PingManager
register_ping now id target timeout pm = record pm {
  pending_pings = store id (length pm.requests) pm.pending_pings;
  requests =
      pm.requests
      ++ (record {
        id = id;
        target = target;
        timeout = timeout;
        start_time = now;
        response_chan = make_channel;
      }
          ∷ []);
}

unfoldable pub forget_ping : String → PingManager → PingManager
forget_ping id pm = record pm { pending_pings = remove id pm.pending_pings }

-- The response without a pong: the message could not be sent, the time is over, or the manager stops.
abbrev pub failed_response : ℕ → String → PingRequest → PingManager → PingResponse
failed_response now error request pm = record {
  ping_id = request.id;
  sender = pm.address;
  receiver = request.target;
  latency = 0;
  success = false;
  timestamp = now;
  error = some error;
}

-- HandlePongResponse up to the send: the request that is found, and the response for it.
unfoldable pub find_pong :
    ℕ → Option String → String → String → PingManager → Outcome (Option (ℕ × PingResponse))
find_pong now none sender receiver pm = returns none
find_pong now (some id) sender receiver pm = elim (lookup id pm.pending_pings) [
  | none ↦ returns none
  | some i ↦ load_at i pm.requests >>= λ request. returns (
      some (
        i,
        record {
          ping_id = id;
          sender = sender;
          receiver = receiver;
          latency = now - request.start_time;
          success = true;
          timestamp = now;
          error = none;
        },
      ))
]

abbrev pub set_chan : Channel PingResponse → PingRequest → PingRequest
set_chan c request = record request { response_chan = c }

-- The send of HandlePongResponse, under its `default`.
unfoldable pub send_pong : ℕ → PingResponse → PingManager → Outcome PingManager
send_pong i response pm = load_at i pm.requests >>= λ request.
    try_send response request.response_chan >>= λ c.
    returns (record pm { requests = write_at_index i (set_chan c) pm.requests })

-- Ten seconds, in nanoseconds.
abbrev pub grace : ℕ
grace = 10_000_000_000

abbrev pub is_outdated : ℕ → PingManager → ℕ → Bool
is_outdated now pm i = elim (get_elem? pm.requests i) [
  | none ↦ false
  | some request ↦ ltb (request.timeout + grace) (now - request.start_time)
]

-- One tick of cleanupExpiredPings.
unfoldable pub cleanup_expired_pings : ℕ → PingManager → PingManager
cleanup_expired_pings now pm = record pm {
  pending_pings = keep_values (λ i. not (is_outdated now pm i)) pm.pending_pings;
}

unfoldable pub get_pending_pings_count : PingManager → ℕ
get_pending_pings_count pm = length pm.pending_pings

unfoldable pub close_chans : GoMap String ℕ → List PingRequest → Outcome (List PingRequest)
close_chans [] requests = returns requests
close_chans ((id, i) ∷ rest) requests = load_at i requests >>= λ request.
    close request.response_chan >>= λ c. close_chans rest (write_at_index i (set_chan c) requests)

-- Stop under the lock.
unfoldable pub stop_pings : PingManager → Outcome PingManager
stop_pings pm = close_chans pm.pending_pings pm.requests >>= λ requests.
    returns (record pm { pending_pings = []; requests = requests; is_stopped = true })
