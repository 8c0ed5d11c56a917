-- ===== src/Network/Acks.antt =====
-- Acks and nacks: internal/network/ack_handler.go, nack_handler.go and their messages in types.go.
-- The two handlers differ in the message alone. A callback is a value that stands for what is
-- called; it may register callbacks, and does nothing else to the handler. What the JSON functions
-- give for the data of a message, if anything, is an argument. The events do not overlap.
pub mod Slots
use t_chat.Base.{
  ℕ, Bool, ◌||◌, Option, none, some, List, [], ◌∷◌, ◌++◌, String, string_comparable, ◌==◌,
  if◌then◌else◌, GoMap, lookup, store, remove,
}

pub record MessageAck : Type 0 where
  pub original_msg_id : String
  pub status : String
  pub timestamp : ℕ
  pub error_code : ℕ
  pub error_message : String

pub record MessageNack : Type 0 where
  pub original_msg_id : String
  pub reason : String
  pub error_code : ℕ
  pub timestamp : ℕ
  pub retry_after : ℕ

-- The parameters of NotifyAckReceived.
unfoldable pub notification : MessageAck → String × Bool
notification ack = (ack.original_msg_id, ack.status == "delivered" || ack.status == "read")

pub data Event (A C : Type 0) : Type 0 where
  received : Option A → Event A C
  registered : String → C → Event A C
  cleaned : Event A C

-- RegisterAckCallback and RegisterNackCallback.
unfoldable pub register_callback : {C : Type 0} → String → C → GoMap String C → GoMap String C
register_callback id callback callbacks = store id callback callbacks

unfoldable pub register_all : {C : Type 0} → List (String × C) → GoMap String C → GoMap String C
unfolding register_callback
register_all [] callbacks = callbacks
register_all ((id, callback) ∷ rest) callbacks =
    register_all rest (register_callback id callback callbacks)

-- `registers c message` is what the callback `c` registers when it is called with the message.
module _ {A C : Type 0} (id_of : A → String) (registers : C → A → List (String × C)) where
  -- HandleMessage, with the callback that it calls and the message that this gets: the entry is
  -- deleted behind the call.
  unfoldable pub handle_message : Option A → GoMap String C → GoMap String C × List (C × A)
  unfolding register_all
  handle_message none callbacks = (callbacks, [])
  handle_message (some message) callbacks = elim (lookup (id_of message) callbacks) [
    | none ↦ (callbacks, [])
    | some callback ↦ (
      remove (id_of message) (register_all (registers callback message) callbacks),
      (callback, message) ∷ [],
    )
  ]

  -- What the events call, one after the other.
  unfoldable pub run_events : List (Event A C) → GoMap String C → List (C × A)
  unfolding handle_message register_all register_callback
  run_events [] callbacks = []
  run_events (received content ∷ events) callbacks =
      let after = handle_message content callbacks in after.1 ++ run_events events after.0
  run_events (registered id callback ∷ events) callbacks =
      run_events events (register_callback id callback callbacks)
  run_events (cleaned ∷ events) callbacks = run_events events []

unfoldable pub handle_ack :
    {C : Type 0}
    → (C → MessageAck → List (String × C))
    → Option MessageAck
    → GoMap String C
    → GoMap String C × List (C × MessageAck)
unfolding handle_message
handle_ack = handle_message (λ ack. ack.original_msg_id)

unfoldable pub handle_nack :
    {C : Type 0}
    → (C → MessageNack → List (String × C))
    → Option MessageNack
    → GoMap String C
    → GoMap String C × List (C × MessageNack)
unfolding handle_message
handle_nack = handle_message (λ nack. nack.original_msg_id)
