-- ===== src/Chat/Sessions/Delivery.antt =====
-- What `DeliverOfflineMessages` and `SendMessage` of internal/chat/session.go do to the unread
-- messages.
use mathlib.Core.List.Memᴰ.{append_left, append_right}
use mathlib.Core.List.{Memᴰ, Permᴰ}
use mathlib.Core.List.Permᴰ as Permᴰ
use t_chat.Base.{
  ℕ, ◌+◌, ◌≡◌, refl, sym, ◌∙◌, subst, Bool, true, false, not, List, [], ◌∷◌, ◌++◌, Bytes, keep, map,
  All-keep, arith, inl, inr, Bool-cases, bytes_eq, bytes_eq_iff, some, ◌==◌, ◌≢◌, store,
  bytes_comparable, if◌then◌else◌, append_assoc,
}
use t_chat.Chat.Store.{
  Message, Messages, MessageStore, MessageStatus, delivered, Write, written, broken,
  message_not_found, is_unread, unread_in, mark, mark_as_delivered, get_unread_messages,
  add_message, get_session_id,
}
use t_chat.Chat.Store.Unread.{
  all_messages, IsWellFiled, get_unread_messages_lem, unread_in-Permᴰ, mark-IsWellFiled,
  add_message-IsWellFiled,
}
use t_chat.Chat.Store.Marks.{Fresh, DistinctIds, with_status, mark_missing, mark_found}
use t_chat.Chat.Sessions.{
  Session, deliver_each, deliver_offline_messages, session_unread, send_message, outgoing,
}

-- The messages whose delivery fails, in the order of the calls.
pub undelivered : (ℕ → Bytes → Bytes → Bool) → ℕ → List Message → List Message
undelivered deliver_fn n [] = []
undelivered deliver_fn n (msg ∷ rest) =
    let later = undelivered deliver_fn (n + 1) rest in
    if deliver_fn n msg.to msg.content then later else msg ∷ later

abbrev other_id : Bytes → Message → Bool
other_id id msg = not (bytes_eq msg.id id)

keep-map_delivered :
    (u id : Bytes) (l : List Message)
    → keep (is_unread u) (map (with_status delivered id) l)
      ≡ keep (other_id id) (keep (is_unread u) l)
keep-map_delivered u id [] = refl
keep-map_delivered u id (msg ∷ rest) = ground (arith, keep-map_delivered u id rest)

Fresh-map :
    (s : MessageStatus) (i id : Bytes) (l : List Message)
    → Fresh i l
    → Fresh i (map (with_status s id) l)
Fresh-map s i id [] f = tt
Fresh-map s i id (msg ∷ rest) f = (ground arith, Fresh-map s i id rest f.1)

DistinctIds-map :
    (s : MessageStatus) (id : Bytes) (l : List Message)
    → DistinctIds l
    → DistinctIds (map (with_status s id) l)
DistinctIds-map s id [] d = tt
DistinctIds-map s id (msg ∷ rest) d = elim (Bool-cases (bytes_eq msg.id id)) [
  | inl hit ↦ rw hit (Fresh-map s msg.id id rest d.0, DistinctIds-map s id rest d.1)
  | inr miss ↦ rw miss (Fresh-map s msg.id id rest d.0, DistinctIds-map s id rest d.1)
]

Fresh-keep : (p : Message → Bool) (i : Bytes) (l : List Message) → Fresh i l → Fresh i (keep p l)
Fresh-keep p i l f = All-keep _ p l f

DistinctIds-keep : (p : Message → Bool) (l : List Message) → DistinctIds l → DistinctIds (keep p l)
DistinctIds-keep p [] d = tt
DistinctIds-keep p (msg ∷ rest) d =
    elim (p msg) as (λ b. DistinctIds (elim b [ true ↦ msg ∷ keep p rest | false ↦ keep p rest ])) [
      | true ↦ (Fresh-keep p msg.id rest d.0, DistinctIds-keep p rest d.1)
      | false ↦ DistinctIds-keep p rest d.1
    ]

keep-other_Fresh : (id : Bytes) (l : List Message) → Fresh id l → keep (other_id id) l ≡ l
keep-other_Fresh id [] f = refl
keep-other_Fresh id (msg ∷ rest) f = ground (arith, keep-other_Fresh id rest f.1)

-- With distinct ids, dropping the id of one message drops that message alone.
keep-other_id :
    (pre rest : List Message) (msg : Message)
    → DistinctIds (pre ++ (msg ∷ rest))
    → keep (other_id msg.id) (pre ++ (msg ∷ rest)) ≡ pre ++ rest
keep-other_id [] rest msg d =
    ground (arith, bytes_eq_iff msg.id msg.id, keep-other_Fresh msg.id rest d.0)
keep-other_id (x ∷ pre) rest msg d =
    ground (arith, keep-other_id pre rest msg d.1, Fresh-middle pre d.0)
  where
    Fresh-middle :
        (pre : List Message) → Fresh x.id (pre ++ (msg ∷ rest)) → bytes_eq x.id msg.id ≡ false
    Fresh-middle [] f = ground (arith, bytes_eq_iff msg.id x.id, bytes_eq_iff x.id msg.id)
    Fresh-middle (y ∷ pre) f = Fresh-middle pre f.1

not-Fresh_middle : (pre rest : List Message) (msg : Message) → ¬ Fresh msg.id (pre ++ (msg ∷ rest))
not-Fresh_middle [] rest msg f = ground (arith, bytes_eq_iff msg.id msg.id)
not-Fresh_middle (x ∷ pre) rest msg f = not-Fresh_middle pre rest msg f.1

-- What the loop keeps up: every message is filed, ids are distinct, and these are unread.
record Unread (u : Bytes) (l : List Message) (ms : MessageStore) : Type 0 where
  filed : IsWellFiled ms.messages
  distinct : DistinctIds (all_messages ms.messages)
  unread : keep (is_unread u) (all_messages ms.messages) ≡ l

mark_delivered-Unread :
    (u : Bytes) (w : Write) (pre rest : List Message) (msg : Message) (ms : MessageStore)
    → Unread u (pre ++ (msg ∷ rest)) ms
    → Unread u (pre ++ rest) (mark delivered w msg.id ms).0
mark_delivered-Unread u w pre rest msg ms inv = record {
  filed = mark-IsWellFiled delivered w msg.id ms inv.filed;
  distinct = rw marked (DistinctIds-map delivered msg.id _ inv.distinct);
  unread =
      rw (marked, keep-map_delivered u msg.id (all_messages ms.messages), inv.unread)
        (keep-other_id pre rest msg
          (subst DistinctIds inv.unread (DistinctIds-keep (is_unread u) _ inv.distinct)));
}
  where
    present : (mark delivered w msg.id ms).1 ≢ some (message_not_found msg.id)
    present e = not-Fresh_middle pre rest msg (
        subst (Fresh msg.id) inv.unread
          (Fresh-keep (is_unread u) msg.id _ ((mark_missing delivered w msg.id ms).0 e)))

    marked :
        all_messages (mark delivered w msg.id ms).0.messages
        ≡ map (with_status delivered msg.id) (all_messages ms.messages)
    marked = mark_found delivered w msg.id ms inv.distinct present

deliver_each-Unread :
    (u : Bytes) (deliver_fn : ℕ → Bytes → Bytes → Bool) (writes : ℕ → Write) (n : ℕ)
    (pre todo : List Message) (ms : MessageStore)
    → Unread u (pre ++ todo) ms
    → Unread u (pre ++ undelivered deliver_fn n todo) (deliver_each deliver_fn writes n todo ms)
unfolding deliver_each undelivered mark_as_delivered
deliver_each-Unread u deliver_fn writes n pre [] ms inv = inv
deliver_each-Unread u deliver_fn writes n pre (msg ∷ rest) ms inv =
    elim (Bool-cases (deliver_fn n msg.to msg.content)) [
      | inl ok ↦ rw ok (
          deliver_each-Unread u deliver_fn writes (n + 1) pre rest
            (mark delivered (writes n) msg.id ms).0
            (mark_delivered-Unread u (writes n) pre rest msg ms inv))
      | inr lost ↦ rw lost (
          rw (append_assoc pre (msg ∷ []) (undelivered deliver_fn (n + 1) rest)) at (
            deliver_each-Unread u deliver_fn writes (n + 1) (pre ++ (msg ∷ [])) rest ms
              (rw (append_assoc pre (msg ∷ []) rest) inv)))
    ]

-- As long as range visits the sessions in one order, the messages that are unread after the offline
-- delivery stay in their order.
delivered_in_order :
    (deliver_fn : ℕ → Bytes → Bytes → Bool) (writes : ℕ → Write) (s : Session)
    → IsWellFiled s.msg_store.messages
    → DistinctIds (all_messages s.msg_store.messages)
    → session_unread (deliver_offline_messages deliver_fn writes s)
      ≡ undelivered deliver_fn 0 (session_unread s)
unfolding deliver_offline_messages session_unread
delivered_in_order deliver_fn writes s f d =
    get_unread_messages_lem s.username _ after.filed ∙ after.unread
  where
    after :
        Unread s.username (undelivered deliver_fn 0 (get_unread_messages s.username s.msg_store)) (
          deliver_each deliver_fn writes 0 (get_unread_messages s.username s.msg_store) s.msg_store)
    after = deliver_each-Unread s.username deliver_fn writes 0 [] _ s.msg_store (record {
      filed = f;
      distinct = d;
      unread = sym (get_unread_messages_lem s.username s.msg_store f);
    })

-- With every message filed under its users and distinct ids, the messages that are unread after the
-- offline delivery are, in some order, those that were unread and whose delivery failed, whatever
-- the writes to disk do, and in whatever order range visits the sessions before and afterwards.
pub deliver_offline_messages_lem :
    (deliver_fn : ℕ → Bytes → Bytes → Bool) (writes : ℕ → Write) (s : Session) (visited : Messages)
    → IsWellFiled s.msg_store.messages
    → DistinctIds (all_messages s.msg_store.messages)
    → Permᴰ (deliver_offline_messages deliver_fn writes s).msg_store.messages visited
    → Permᴰ (unread_in s.username visited) (undelivered deliver_fn 0 (session_unread s))
unfolding session_unread get_unread_messages deliver_offline_messages
deliver_offline_messages_lem deliver_fn writes s visited f d order =
    subst (Permᴰ (unread_in s.username visited)) (delivered_in_order deliver_fn writes s f d) (
      Permᴰ.symm (
        unread_in-Permᴰ s.username (deliver_offline_messages deliver_fn writes s).msg_store.messages
          visited order))

mem-keep :
    (p : Message → Bool) (a : Message) (l : List Message)
    → p a ≡ true
    → Memᴰ a l
    → Memᴰ a (keep p l)
mem-keep p a [] h m = elim m [ ]
mem-keep p a (x ∷ l) h (Memᴰ.head e) = rw (← e) (kept (p a) h)
  where
    kept : (b : Bool) → b ≡ true → Memᴰ a (elim b [ true ↦ a ∷ keep p l | false ↦ keep p l ])
    kept true h' = Memᴰ.head refl
    kept false h' = cc
mem-keep p a (x ∷ l) h (Memᴰ.tail t) =
    elim (p x) as (λ b. Memᴰ a (elim b [ true ↦ x ∷ keep p l | false ↦ keep p l ])) [
      | true ↦ Memᴰ.tail (mem-keep p a l h t)
      | false ↦ mem-keep p a l h t
    ]

mem-store :
    (a : Message) (k : Bytes) (l : List Message) (m : Messages)
    → Memᴰ a l
    → Memᴰ a (all_messages (store k l m))
unfolding store
mem-store a k l [] h = append_left [] h
mem-store a k l ((j, l') ∷ m) h = elim (Bool-cases (j == k)) [
  | inl same ↦ rw same (append_left (all_messages m) h)
  | inr other ↦ rw other (append_right l' (mem-store a k l m h))
]

-- If every message lies under the id of its users, a message that the session sends is unread for
-- its recipient, whatever the write to disk does.
pub send_message_unread :
    (w : Write) (id : Bytes) (now : ℕ) (to content : Bytes) (s : Session)
    → IsWellFiled s.msg_store.messages
    → Memᴰ
        (outgoing s.username id to content now)
        (get_unread_messages to (send_message w id now to content s).0.msg_store)
unfolding send_message add_message
send_message_unread w id now to content s f =
    rw
      (get_unread_messages_lem to (add_message w msg s.msg_store).0
        (add_message-IsWellFiled w msg s.msg_store f))
      (mem-keep (is_unread to) msg _ (ground (arith, bytes_eq_iff to to)) (by_write w))
  where
    msg : Message
    msg = outgoing s.username id to content now

    stored :
        (old : List Message)
        → Memᴰ msg (
            all_messages
              (store (get_session_id s.username to) (old ++ (msg ∷ [])) s.msg_store.messages))
    stored old = mem-store msg _ _ s.msg_store.messages (append_right old (Memᴰ.head refl))

    by_write : (w : Write) → Memᴰ msg (all_messages (add_message w msg s.msg_store).0.messages)
    by_write written = stored _
    by_write (broken left) = stored _
