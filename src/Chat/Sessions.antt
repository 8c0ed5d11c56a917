-- ===== src/Chat/Sessions.antt =====
-- Chat sessions: internal/chat/session.go over the message store. The clock is an argument: the
-- time of the call and the id that `generateMessageID` draws from it. A delivery function gets
-- the number of the call, since it may answer differently each time.
pub mod Delivery
use t_chat.Base.{ℕ, ◌+◌, Bool, Option, List, [], ◌∷◌, Bytes, if◌then◌else◌, b_text}
use t_chat.Chat.Store.{
  Message, MessageStore, MessageStatus, sent, delivered, Write, Error, add_message, get_messages,
  get_unread_messages, mark_as_read, mark_as_delivered,
}

pub record Session : Type 0 where
  pub username : Bytes
  pub msg_store : MessageStore

pub new_session : Bytes → MessageStore → Session
new_session username msg_store = record { username = username; msg_store = msg_store }

abbrev on_store : Session → MessageStore × Option Error → Session × Option Error
on_store s (ms, e) = (record s { msg_store = ms }, e)

abbrev pub outgoing : Bytes → Bytes → Bytes → Bytes → ℕ → Message
outgoing username id to content now = record {
  id = id;
  from = username;
  to = to;
  content = content;
  type = b_text;
  timestamp = now;
  status = sent;
}

unfoldable pub send_message : Write → Bytes → ℕ → Bytes → Bytes → Session → Session × Option Error
send_message w id now to content s =
    on_store s (add_message w (outgoing s.username id to content now) s.msg_store)

unfoldable pub receive_message :
    Write → Bytes → ℕ → Bytes → Bytes → Session → Session × Option Error
receive_message w id now from content s = on_store s (
    add_message w
      (record {
        id = id;
        from = from;
        to = s.username;
        content = content;
        type = b_text;
        timestamp = now;
        status = delivered;
      })
      s.msg_store)

unfoldable pub session_messages : Bytes → Session → List Message
session_messages with_user s = get_messages s.username with_user s.msg_store

unfoldable pub session_unread : Session → List Message
session_unread s = get_unread_messages s.username s.msg_store

unfoldable pub session_mark_as_read : Write → Bytes → Session → Session × Option Error
session_mark_as_read w id s = on_store s (mark_as_read w id s.msg_store)

-- The loop over the unread messages; its errors are printed and dropped.
pub deliver_each :
    (ℕ → Bytes → Bytes → Bool) → (ℕ → Write) → ℕ → List Message → MessageStore → MessageStore
deliver_each deliver_fn writes n [] ms = ms
deliver_each deliver_fn writes n (msg ∷ rest) ms =
    deliver_each deliver_fn writes (n + 1) rest
      (if deliver_fn n msg.to msg.content then (mark_as_delivered (writes n) msg.id ms).0 else ms)

unfoldable pub deliver_offline_messages :
    (ℕ → Bytes → Bytes → Bool) → (ℕ → Write) → Session → Session
unfolding deliver_each session_unread
deliver_offline_messages deliver_fn writes s = record s {
  msg_store = deliver_each deliver_fn writes 0 (session_unread s) s.msg_store;
}
