-- ===== src/Examples/Chat.antt =====
-- A store with a few messages: internal/chat.
use mathlib.Core.List.{Permᴰ}
use mathlib.Core.List.Permᴰ as Permᴰ
use t_chat.Base.{
  keep, bytes_eq, eqb, ◌≡◌, ◌≢◌, refl, true, false, some, none, [], ◌∷◌, Bytes, arith,
}
use t_chat.Chat.Store.{
  is_unread, Message, MessageStore, read, written, broken, message_not_found, join_names,
  get_session_id, add_message, get_unread_messages, unread_in, mark, bytes_lt,
}
use t_chat.Chat.Store.Unread.{all_messages, IsWellFiled}
use t_chat.Chat.Store.History.{Reachable, get_unread_messages-Reachable}
use t_chat.Chat.Store.Marks.{Fresh, mark_missing}
use t_chat.Chat.Sessions.{Session, outgoing, session_unread, deliver_offline_messages}
use t_chat.Chat.Sessions.Delivery.{undelivered, deliver_offline_messages_lem}

abbrev ann : Bytes
ann = b'a' ∷ b'n' ∷ b'n' ∷ []

abbrev bob : Bytes
bob = b'b' ∷ b'o' ∷ b'b' ∷ []

abbrev letter : Bytes → Bytes → Bytes → Message
letter id from to = record (outgoing from id to bob 7) { content = bob }

abbrev first_letter : Message
first_letter = letter (b'1' ∷ []) ann bob

abbrev second_letter : Message
second_letter = letter (b'2' ∷ []) bob ann

abbrev third_letter : Message
third_letter = letter (b'3' ∷ []) ann bob

abbrev letters : MessageStore
letters = record {
  messages = (join_names ann bob, first_letter ∷ second_letter ∷ third_letter ∷ []) ∷ [];
  file = none;
}

abbrev desk : Session
desk = record { username = bob; msg_store = letters }

letters-IsWellFiled : IsWellFiled letters.messages
unfolding get_session_id bytes_lt
letters-IsWellFiled = ((refl, (refl, (refl, tt))), tt)

is_found : (mark read (broken none) (b'2' ∷ []) letters).1 ≢ some (message_not_found (b'2' ∷ []))
unfolding bytes_eq
is_found e =
    let fresh : Fresh (b'2' ∷ []) (all_messages letters.messages) =
      (mark_missing read (broken none) (b'2' ∷ []) letters).0 e in
    let wrong : true ≡ false = fresh.1.0 in ground arith

-- The second of two deliveries fails.
deliver_offline_messages_lem_example :
    Permᴰ
      (unread_in desk.username
        (deliver_offline_messages
          (λ n to content. eqb n 0)
          (λ n. broken none)
          desk).msg_store.messages)
      (undelivered (λ n to content. eqb n 0) 0 (session_unread desk))
unfolding bytes_eq
deliver_offline_messages_lem_example =
    deliver_offline_messages_lem (λ n to content. eqb n 0) (λ n. broken none) desk _
      letters-IsWellFiled ((refl, (refl, tt)), ((refl, tt), (tt, tt)))
      (Permᴰ.refl
        (deliver_offline_messages (λ n to content. eqb n 0) (λ n. broken none)
          desk).msg_store.messages)

-- Two letters, the second of which has been read, though the writes failed.
abbrev empty : MessageStore
empty = record { messages = []; file = none }

abbrev read_letters : MessageStore
read_letters =
    (mark read (broken none) (b'3' ∷ [])
      (add_message (broken none) third_letter (add_message written first_letter empty).0).0).0

get_unread_messages-Reachable_example :
    get_unread_messages bob read_letters ≡ keep (is_unread bob) (all_messages read_letters.messages)
get_unread_messages-Reachable_example = get_unread_messages-Reachable bob read_letters (
    Reachable.marked read (broken none) (b'3' ∷ []) (
      Reachable.added (broken none) third_letter
        (Reachable.added written first_letter (Reachable.initially empty refl))))
