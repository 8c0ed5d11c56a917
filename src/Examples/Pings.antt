-- ===== src/Examples/Pings.antt =====
-- A ping that is answered: internal/network/ping_manager.go.
use t_chat.Base.{
  refl, true, false, none, some, [], ◌∷◌, string_comparable, All, lookup, store, remove,
}
use t_chat.Network.Pings.{
  PingRequest, PingResponse, PingManager, register_ping, find_pong, send_pong, new_ping_manager,
  forget_ping,
}
use t_chat.Network.Confirmations.{Channel, try_send, receive, make_channel}
use t_chat.Network.Pings.Steps.{Program, Step, Steps, new_program}
use t_chat.Network.Pings.Kept.{IsAnswer}
use t_chat.Network.Pings.Answered.{Steps-IsAnswer}

abbrev request : Channel PingResponse → PingRequest
request c = record {
  id = "ping_1";
  target = "bob";
  timeout = 50;
  start_time = 1;
  response_chan = c;
}

abbrev response : PingResponse
response = record {
  ping_id = "ping_1";
  sender = "bob";
  receiver = "ann";
  latency = 3;
  success = true;
  timestamp = 4;
  error = none;
}

abbrev full : Channel PingResponse
full = record { buffer = some response; is_closed = false }

abbrev manager : Channel PingResponse → PingManager
manager c = record {
  pending_pings = ("ping_1", 0) ∷ [];
  requests = request c ∷ [];
  address = "ann";
  is_stopped = false;
}

abbrev start : Program
start = record {
  manager = manager make_channel;
  has_crashed = false;
  waiting = 0 ∷ [];
  sending = [];
  pongs = [];
  returned = [];
}

abbrev found : Program
found = record start { pongs = "ping_1" ∷ []; sending = (0, response) ∷ [] }

abbrev after_send : Program
after_send = record found { manager = manager full; sending = [] }

abbrev finished : Program
finished = record after_send {
  manager = record {
    pending_pings = [];
    requests = request make_channel ∷ [];
    address = "ann";
    is_stopped = false;
  };
  waiting = [];
  returned = (request full, response) ∷ [];
}

start-Steps : Steps "ann" start
unfolding register_ping store new_program new_ping_manager
start-Steps = Steps.further Steps.none_yet (Step.sends 1 "ping_1" "bob" 50)

found-Steps : Steps "ann" found
unfolding find_pong lookup
found-Steps = Steps.further start-Steps (Step.pong_finds 4 "ping_1" "bob" "ann" 0 response refl)

after_send-Steps : Steps "ann" after_send
unfolding send_pong try_send
after_send-Steps =
    Steps.further found-Steps (Step.pong_sends [] 0 response [] (manager full) refl refl)

finished-Steps : Steps "ann" finished
unfolding receive forget_ping remove
finished-Steps =
    Steps.further after_send-Steps
      (Step.hears [] 0 [] (request full) response make_channel refl refl refl)

Steps-IsAnswer_example : All (IsAnswer finished.pongs) finished.returned
Steps-IsAnswer_example = Steps-IsAnswer finished-Steps
