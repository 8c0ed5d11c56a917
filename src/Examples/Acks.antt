-- ===== src/Examples/Acks.antt =====
-- A run of the ack handler: internal/network/ack_handler.go.
use t_chat.Base.{◌≡◌, none, some, List, [], ◌∷◌, String, keep, lookup}
use t_chat.Network.Acks.{MessageAck, Event, received, registered, run_events}
use t_chat.Network.Acks.Slots.{slot_calls, is_for, run_events-slot_calls}

abbrev ack_of : String → MessageAck
ack_of id = record {
  original_msg_id = id;
  status = "delivered";
  timestamp = 4;
  error_code = 0;
  error_message = "";
}

-- Two callbacks, an ack for each, and a second ack for the first.
abbrev two_acked : List (Event MessageAck String)
two_acked =
    registered "m1" "show"
    ∷ registered "m2" "log"
    ∷ received (some (ack_of "m2"))
    ∷ received (some (ack_of "m1"))
    ∷ received (some (ack_of "m1"))
    ∷ received none
    ∷ []

-- Each callback registers another one for its message.
abbrev registers_again : String → MessageAck → List (String × String)
registers_again callback ack = (ack.original_msg_id, "again") ∷ []

run_events-slot_calls_example :
    keep
      (is_for (λ ack. ack.original_msg_id) "m1")
      (run_events (λ ack. ack.original_msg_id) registers_again two_acked [])
    ≡ ("show", ack_of "m1") ∷ []
unfolding slot_calls lookup
run_events-slot_calls_example =
    run_events-slot_calls (λ ack. ack.original_msg_id) registers_again "m1"
      (λ callback ack. ((λ i. ack.original_msg_id), tt)) two_acked []
