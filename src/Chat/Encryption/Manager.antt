-- ===== src/Chat/Encryption/Manager.antt =====
-- The chat manager: internal/chat/manager.go. The sessions share the message store, so the manager
-- keeps their names and the store. A write of the store, the id and the time are arguments.
use t_chat.Base.{
  ℕ, Bool, false, not, ◌||◌, Option, none, some, List, [], ◌∷◌, ◌++◌, Bytes, bytes_comparable,
  if◌then◌else◌, ◌==◌,
}
use t_chat.Chat.Store.{MessageStore, Write, Error}
use t_chat.Chat.Sessions.{Session, send_message, receive_message}
use t_chat.Chat.Encryption.{
  Crypto, EncryptedMessage, EncryptionManager, encrypt_message, decrypt_message,
}

pub record ChatManager : Type 0 where
  pub message_store : MessageStore
  pub encryption : Option EncryptionManager
  pub sessions : List Bytes
  pub is_enabled : Bool

-- NewChatManager with the encryption manager, if one is made.
unfoldable pub new_chat_manager : MessageStore → Option EncryptionManager → Bool → ChatManager
new_chat_manager store_ encryption is_enabled = record {
  message_store = store_;
  encryption = encryption;
  sessions = [];
  is_enabled = is_enabled;
}

unfoldable pub has_session : Bytes → List Bytes → Bool
has_session name [] = false
has_session name (other ∷ rest) = other == name || has_session name rest

unfoldable pub create_chat_session : Bytes → ChatManager → ChatManager
create_chat_session name cm =
    if has_session name cm.sessions then cm else record cm { sessions = name ∷ cm.sessions }

unfoldable pub get_chat_session : Bytes → ChatManager → Option Session
get_chat_session name cm =
    if has_session name cm.sessions
    then some (record { username = name; msg_store = cm.message_store })
    else none

pub data ChatError : Type 0 where
  not_enabled cannot_encrypt cannot_decrypt : ChatError
  store_failed : Error → ChatError

-- "encrypted:"
abbrev pub encrypted_prefix : Bytes
encrypted_prefix = b'e' ∷ b'n' ∷ b'c' ∷ b'r' ∷ b'y' ∷ b'p' ∷ b't' ∷ b'e' ∷ b'd' ∷ b':' ∷ []

-- A session's method that is called on the shared store.
abbrev pub with_store : Session × Option Error → ChatManager → ChatManager × Option ChatError
with_store (s, none) cm = (record cm { message_store = s.msg_store }, none)
with_store (s, some e) cm = (record cm { message_store = s.msg_store }, some (store_failed e))

unfoldable pub send_encrypted_message :
    Crypto
    → Write
    → Bytes
    → ℕ
    → Bytes
    → Bytes
    → Bytes
    → ChatManager
    → ChatManager × Option ChatError
send_encrypted_message crypto w id now from to content cm = elim cm.encryption [
  | none ↦ (cm, some not_enabled)
  | some em ↦
      if not cm.is_enabled
      then (cm, some not_enabled)
      else (let (em', sealed) = encrypt_message crypto now to content em in
          let cm' : ChatManager = record cm { encryption = some em' } in
          elim sealed [
            | none ↦ (cm', some cannot_encrypt)
            | some message ↦
                let cm'' = create_chat_session from cm' in
                with_store
                  (send_message w id now to (encrypted_prefix ++ message.content)
                    (record { username = from; msg_store = cm''.message_store }))
                  cm''
          ])
]

unfoldable pub receive_encrypted_message :
    Crypto
    → Write
    → Bytes
    → ℕ
    → Bytes
    → Bytes
    → EncryptedMessage
    → ChatManager
    → ChatManager × Option ChatError
receive_encrypted_message crypto w id now from to message cm = elim cm.encryption [
  | none ↦ (cm, some not_enabled)
  | some em ↦
      if not cm.is_enabled
      then (cm, some not_enabled)
      else (let (em', opened) = decrypt_message crypto now message em in
          let cm' : ChatManager = record cm { encryption = some em' } in
          elim opened [
            | none ↦ (cm', some cannot_decrypt)
            | some text ↦
                let cm'' = create_chat_session to cm' in
                with_store
                  (receive_message w id now from text
                    (record { username = to; msg_store = cm''.message_store }))
                  cm''
          ])
]

unfoldable pub cleanup_chat : ChatManager → ChatManager
cleanup_chat cm = record cm { sessions = [] }
