-- ===== src/Network/Pings/Steps.antt =====
-- The goroutines of internal/network/ping_manager.go, which run at the same time.
use t_chat.Base.{
  ℕ, ◌≡◌, Bool, true, false, Option, none, some, List, [], ◌∷◌, ◌++◌, String, length, get_elem?,
  write_at_index,
}
use t_chat.Network.Outcome.{returns, panics}
use t_chat.Network.Confirmations.{Channel, receive}
use t_chat.Network.Pings.{
  PingResponse, PingRequest, PingManager, new_ping_manager, register_ping, forget_ping,
  failed_response, find_pong, set_chan, send_pong, cleanup_expired_pings, stop_pings,
}

-- `waiting` are the requests whose SendPing is in its select, `sending` the responses that
-- HandlePongResponse is about to send, `pongs` the ids of the pongs that have come, and `returned` the
-- responses that SendPing has returned, each with its request.
pub record Program : Type 0 where
  pub manager : PingManager
  pub has_crashed : Bool
  pub waiting : List ℕ
  pub sending : List (ℕ × PingResponse)
  pub pongs : List String
  pub returned : List (PingRequest × PingResponse)

unfoldable pub new_program : String → Program
new_program address = record {
  manager = new_ping_manager address;
  has_crashed = false;
  waiting = [];
  sending = [];
  pongs = [];
  returned = [];
}

-- SendPing returns to its caller.
abbrev pub answered : PingRequest → PingResponse → Program → Program
answered request response p = record p {
  manager = forget_ping request.id p.manager;
  returned = (request, response) ∷ p.returned;
}

pub data Step : Program → Program → Type 0 where
  sends :
      (now : ℕ) (id target : String) (timeout : ℕ) {p : Program}
      → Step p (record p {
        manager = register_ping now id target timeout p.manager;
        waiting = p.waiting ++ (length p.manager.requests ∷ []);
      })
  -- The message could not be sent, the time is over, or the manager is stopped.
  gives_up :
      (now : ℕ) (error : String) (left : List ℕ) (i : ℕ) (right : List ℕ) (request : PingRequest)
      {p : Program}
      → p.waiting ≡ left ++ (i ∷ right)
      → get_elem? p.manager.requests i ≡ some request
      → Step p (
          answered request
            (failed_response now error request p.manager)
            (record p { waiting = left ++ right }))
  hears :
      (left : List ℕ) (i : ℕ) (right : List ℕ) (request : PingRequest) (response : PingResponse)
      (c : Channel PingResponse) {p : Program}
      → p.waiting ≡ left ++ (i ∷ right)
      → get_elem? p.manager.requests i ≡ some request
      → receive request.response_chan ≡ some (some response, c)
      → Step p (
          answered request response (record p {
            waiting = left ++ right;
            manager = record p.manager {
              requests = write_at_index i (set_chan c) p.manager.requests;
            };
          }))
  -- The channel is closed: the response is nil, and its latency is read.
  hears_nil :
      (left : List ℕ) (i : ℕ) (right : List ℕ) (request : PingRequest) (c : Channel PingResponse)
      {p : Program}
      → p.waiting ≡ left ++ (i ∷ right)
      → get_elem? p.manager.requests i ≡ some request
      → receive request.response_chan ≡ some (none, c)
      → Step p (record p { has_crashed = true })
  pong_finds :
      (now : ℕ) (id : String) (sender receiver : String) (i : ℕ) (response : PingResponse)
      {p : Program}
      → find_pong now (some id) sender receiver p.manager ≡ returns (some (i, response))
      → Step p (record p { pongs = id ∷ p.pongs; sending = (i, response) ∷ p.sending })
  pong_misses :
      (now : ℕ) (id : Option String) (sender receiver : String) {p : Program}
      → find_pong now id sender receiver p.manager ≡ returns none
      → Step p p
  pong_sends :
      (left : List (ℕ × PingResponse)) (i : ℕ) (response : PingResponse)
      (right : List (ℕ × PingResponse)) (pm : PingManager) {p : Program}
      → p.sending ≡ left ++ ((i, response) ∷ right)
      → send_pong i response p.manager ≡ returns pm
      → Step p (record p { manager = pm; sending = left ++ right })
  pong_crashes :
      (left : List (ℕ × PingResponse)) (i : ℕ) (response : PingResponse)
      (right : List (ℕ × PingResponse)) {p : Program}
      → p.sending ≡ left ++ ((i, response) ∷ right)
      → send_pong i response p.manager ≡ panics
      → Step p (record p { has_crashed = true })
  cleans :
      (now : ℕ) {p : Program} → Step p (record p { manager = cleanup_expired_pings now p.manager })
  stops :
      (pm : PingManager) {p : Program}
      → stop_pings p.manager ≡ returns pm
      → Step p (record p { manager = pm })

pub data Steps (address : String) : Program → Type 0 where
  none_yet : Steps address (new_program address)
  further : {p p' : Program} → Steps address p → Step p p' → Steps address p'
