-- ===== src/Chat/Store.antt =====
-- The message store: internal/chat/message.go. A session's messages lie under the key that
-- `get_session_id` builds from the two user names. Names, ids and contents are byte strings.
-- The JSON file is the map that it encodes; what `os.WriteFile` does is an argument of each call.
pub mod Ids
pub mod Unread
pub mod History
pub mod Marks
use t_chat.Base.{
  ℕ, ◌-◌, Bool, true, false, ◌&&◌, ◌||◌, Option, none, some, List, [], ◌∷◌, ◌++◌, Bytes,
  bytes_comparable, ltb, eqb, ◌==◌, if◌then◌else◌, GoMap, lookup, store, length, take, drop, keep,
  bytes_eq,
}

-- The values that the code gives to `Message.Status`.
pub data MessageStatus : Type 0 where
  pending sent delivered read failed : MessageStatus

pub record Message : Type 0 where
  pub id : Bytes
  pub from : Bytes
  pub to : Bytes
  pub content : Bytes
  pub type : Bytes
  pub timestamp : ℕ
  pub status : MessageStatus

abbrev pub Messages : Type 0
Messages = GoMap Bytes (List Message)

-- `file` is what a later start would read: `none` if the file is missing or is not JSON.
pub record MessageStore : Type 0 where
  pub messages : Messages
  pub file : Option Messages

-- A write succeeds, or fails and leaves some content behind.
pub data Write : Type 0 where
  written : Write
  broken : Option Messages → Write

pub data Error : Type 0 where
  write_failed : Error
  message_not_found : Bytes → Error

-- Go's `<` on strings.
unfoldable pub bytes_lt : Bytes → Bytes → Bool
bytes_lt [] [] = false
bytes_lt [] (y ∷ ys) = true
bytes_lt (x ∷ xs) [] = false
bytes_lt (x ∷ xs) (y ∷ ys) = ltb x y || (eqb x y && bytes_lt xs ys)

-- `fmt.Sprintf("%s_%s", a, b)`
abbrev pub join_names : Bytes → Bytes → Bytes
join_names a b = a ++ (b'_' ∷ b)

unfoldable pub get_session_id : Bytes → Bytes → Bytes
unfolding bytes_lt
get_session_id from to = if bytes_lt from to then join_names from to else join_names to from

unfoldable pub is_session_for_user : Bytes → Bytes → Bool
is_session_for_user session_id username =
    ltb (length username) (length session_id)
    && (take (length username) session_id == username
        || drop (length session_id - length username) session_id == username)

pub save_messages : Write → MessageStore → MessageStore × Option Error
save_messages written ms = (record ms { file = some ms.messages }, none)
save_messages (broken left) ms = (record ms { file = left }, some write_failed)

load_from : Option Messages → MessageStore → MessageStore
load_from none ms = ms
load_from (some messages) ms = record ms { messages = messages }

pub load_messages : MessageStore → MessageStore
unfolding load_from
load_messages ms = load_from ms.file ms

-- `NewMessageStore` ignores the error of `loadMessages`.
unfoldable pub new_message_store : Option Messages → MessageStore
unfolding load_messages
new_message_store file = load_messages (record { messages = []; file = file })

abbrev pub or_empty : Option (List Message) → List Message
or_empty none = []
or_empty (some l) = l

unfoldable pub get_messages : Bytes → Bytes → MessageStore → List Message
get_messages from to ms = or_empty (lookup (get_session_id from to) ms.messages)

-- A missing key and an empty slice append alike.
unfoldable pub add_message : Write → Message → MessageStore → MessageStore × Option Error
unfolding save_messages
add_message w msg ms =
    let session_id = get_session_id msg.from msg.to in
    save_messages w (record ms {
      messages =
          store session_id (or_empty (lookup session_id ms.messages) ++ (msg ∷ [])) ms.messages;
    })

abbrev pub is_sent : MessageStatus → Bool
is_sent sent = true
is_sent _ = false

abbrev pub is_unread : Bytes → Message → Bool
is_unread username msg = bytes_eq msg.to username && is_sent msg.status

pub unread_in : Bytes → Messages → List Message
unread_in username [] = []
unread_in username ((session_id, messages) ∷ rest) =
    (if is_session_for_user session_id username then keep (is_unread username) messages else [])
    ++ unread_in username rest

unfoldable pub get_unread_messages : Bytes → MessageStore → List Message
unfolding unread_in
get_unread_messages username ms = unread_in username ms.messages

-- The inner loop of the `Mark…` methods: the first message with the id, if the session has one.
pub mark_in : MessageStatus → Bytes → List Message → Option (List Message)
mark_in status id [] = none
mark_in status id (msg ∷ rest) = elim (bytes_eq msg.id id) [
  | true ↦ some (record msg { status = status } ∷ rest)
  | false ↦ elim (mark_in status id rest) [ none ↦ none | some rest' ↦ some (msg ∷ rest') ]
]

-- The outer loop: the first session that has such a message.
pub mark_sessions : MessageStatus → Bytes → Messages → Option Messages
mark_sessions status id [] = none
mark_sessions status id ((session_id, messages) ∷ rest) = elim (mark_in status id messages) [
  | some messages' ↦ some ((session_id, messages') ∷ rest)
  | none ↦ elim (mark_sessions status id rest) [
    | none ↦ none
    | some rest' ↦ some ((session_id, messages) ∷ rest')
  ]
]

pub mark : MessageStatus → Write → Bytes → MessageStore → MessageStore × Option Error
mark status w id ms = elim (mark_sessions status id ms.messages) [
  | none ↦ (ms, some (message_not_found id))
  | some messages ↦ save_messages w (record ms { messages = messages })
]

unfoldable pub mark_as_read : Write → Bytes → MessageStore → MessageStore × Option Error
unfolding mark mark_in mark_sessions save_messages
mark_as_read = mark read

unfoldable pub mark_as_delivered : Write → Bytes → MessageStore → MessageStore × Option Error
unfolding mark mark_in mark_sessions save_messages
mark_as_delivered = mark delivered

unfoldable pub mark_failed : Write → Bytes → MessageStore → MessageStore × Option Error
unfolding mark mark_in mark_sessions save_messages
mark_failed = mark failed
