-- ===== src/Chat/Store/History.antt =====
-- Every sequence of calls that write to a store of internal/chat/message.go.
use t_chat.Base.{◌≡◌, [], Bytes, keep}
use t_chat.Chat.Store.{
  Message, MessageStatus, MessageStore, Write, add_message, mark, get_unread_messages, is_unread,
}
use t_chat.Chat.Store.Unread.{
  IsWellFiled, all_messages, get_unread_messages_lem, add_message-IsWellFiled, mark-IsWellFiled,
}

-- From a store without messages, by `AddMessage` and the `Mark…` methods.
pub data Reachable : MessageStore → Type 0 where
  initially : (ms : MessageStore) → ms.messages ≡ [] → Reachable ms
  added :
      {ms : MessageStore} (w : Write) (msg : Message)
      → Reachable ms
      → Reachable (add_message w msg ms).0
  marked :
      {ms : MessageStore} (s : MessageStatus) (w : Write) (id : Bytes)
      → Reachable ms
      → Reachable (mark s w id ms).0

Reachable-IsWellFiled : (ms : MessageStore) → Reachable ms → IsWellFiled ms.messages
Reachable-IsWellFiled ms (Reachable.initially _ e) = rw e tt
Reachable-IsWellFiled _ (Reachable.added {ms = ms} w msg r) =
    add_message-IsWellFiled w msg ms (Reachable-IsWellFiled ms r)
Reachable-IsWellFiled _ (Reachable.marked {ms = ms} s w id r) =
    mark-IsWellFiled s w id ms (Reachable-IsWellFiled ms r)

-- Whatever has been added and marked since the store was empty, and whichever of the writes failed,
-- the unread messages of a user are all the stored messages to that user with the status `sent`.
pub get_unread_messages-Reachable :
    (u : Bytes) (ms : MessageStore)
    → Reachable ms
    → get_unread_messages u ms ≡ keep (is_unread u) (all_messages ms.messages)
get_unread_messages-Reachable u ms r = get_unread_messages_lem u ms (Reachable-IsWellFiled ms r)
