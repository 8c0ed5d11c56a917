-- ===== src/Chat/Store/Ids.antt =====
-- Session ids: `getSessionID` and `isSessionForUser` of internal/chat/message.go.
use t_chat.Base.{
  ℕ, ◌-◌, ◌≡◌, refl, ap, ◌∙◌, true, false, List, [], ◌∷◌, ◌++◌, Bytes, length, length-append, take,
  drop, take-append_left, drop-append_left, append_assoc, arith, bytes_eq_iff, ◌==◌, eq_self,
  lookup, store, lookup-store, bytes_comparable, if◌then◌else◌,
}
use t_chat.Chat.Store.{
  Message, MessageStore, Write, written, broken, bytes_lt, join_names, get_session_id,
  is_session_for_user, get_messages, add_message, or_empty,
}

bytes_lt_asym : (a b : Bytes) → bytes_lt a b ≡ true → bytes_lt b a ≡ false
unfolding bytes_lt
bytes_lt_asym [] [] h = refl
bytes_lt_asym [] (y ∷ ys) h = refl
bytes_lt_asym (x ∷ xs) [] h = cc
bytes_lt_asym (x ∷ xs) (y ∷ ys) h = ground (arith, bytes_lt_asym xs ys)

bytes_lt_total : (a b : Bytes) → bytes_lt a b ≡ false → bytes_lt b a ≡ false → a ≡ b
unfolding bytes_lt
bytes_lt_total [] [] h k = refl
bytes_lt_total [] (y ∷ ys) h k = cc
bytes_lt_total (x ∷ xs) [] h k = cc
bytes_lt_total (x ∷ xs) (y ∷ ys) h k = ground (arith, bytes_lt_total xs ys)

-- A session id does not depend on which of the two users is the sender.
pub get_session_id_comm : (a b : Bytes) → get_session_id a b ≡ get_session_id b a
unfolding get_session_id
get_session_id_comm a b = ground (arith, bytes_lt_asym a b, bytes_lt_asym b a, bytes_lt_total a b)

is_session_left : (u b : Bytes) → is_session_for_user (join_names u b) u ≡ true
unfolding is_session_for_user
is_session_left u b =
    rw (take-append_left u (b'_' ∷ b), eq_self u) (ground (arith, length-append u (b'_' ∷ b)))

is_session_right : (a u : Bytes) → is_session_for_user (join_names a u) u ≡ true
unfolding is_session_for_user
is_session_right a u =
    rw (skip, eq_self u)
      (ground (arith, length-append a (b'_' ∷ u), take (length u) (a ++ (b'_' ∷ u)) == u))
  where
    skip : drop (length (join_names a u) - length u) (join_names a u) ≡ u
    skip = rw (← append_assoc a (b'_' ∷ []) u) (
        ap (λ (n : ℕ). drop n ((a ++ (b'_' ∷ [])) ++ u)) {y = length (a ++ (b'_' ∷ []))}
          (omega (arith, length-append (a ++ (b'_' ∷ [])) u))
        ∙ drop-append_left (a ++ (b'_' ∷ [])) u)

-- Both users of a session are recognised in its id.
pub is_session_for_user_lem :
    (a b : Bytes)
    → (is_session_for_user (get_session_id a b) a ≡ true)
      × (is_session_for_user (get_session_id a b) b ≡ true)
unfolding get_session_id
is_session_for_user_lem a b =
    ground
      (arith, is_session_left a b, is_session_right a b, is_session_left b a, is_session_right b a)

-- A new message goes to the end of the conversation of its two users, read from either side, and
-- every other conversation stays as it was.
pub get_messages-add_message :
    (w : Write) (msg : Message) (ms : MessageStore) (a b : Bytes)
    → get_messages a b (add_message w msg ms).0 ≡ (
        if get_session_id msg.from msg.to == get_session_id a b
        then get_messages a b ms ++ (msg ∷ [])
        else get_messages a b ms)
unfolding get_messages add_message
get_messages-add_message w msg ms a b = by_write w
  where
    key : Bytes
    key = get_session_id msg.from msg.to

    other : Bytes
    other = get_session_id a b

    stored :
        (l : List Message)
        → or_empty (lookup other (store key (or_empty (lookup key ms.messages) ++ l) ms.messages))
          ≡ (if key == other
              then or_empty (lookup other ms.messages) ++ l
              else or_empty (lookup other ms.messages))
    stored l =
        rw (lookup-store key other (or_empty (lookup key ms.messages) ++ l) ms.messages)
          (ground (arith, bytes_eq_iff key other))

    by_write :
        (w : Write)
        → or_empty (lookup other (add_message w msg ms).0.messages) ≡ (
            if key == other
            then or_empty (lookup other ms.messages) ++ (msg ∷ [])
            else or_empty (lookup other ms.messages))
    by_write written = stored (msg ∷ [])
    by_write (broken left) = stored (msg ∷ [])

-- Names that hold the separator collide: a message from `a` to `b_c` appears in the conversation
-- of `a_b` and `c`, if the names compare so that the ids are joined in this order.
pub get_messages-collision :
    (w : Write) (msg : Message) (ms : MessageStore) (a b c : Bytes)
    → msg.from ≡ a
    → msg.to ≡ join_names b c
    → bytes_lt a (join_names b c) ≡ true
    → bytes_lt (join_names a b) c ≡ true
    → get_messages (join_names a b) c (add_message w msg ms).0
      ≡ get_messages (join_names a b) c ms ++ (msg ∷ [])
unfolding get_session_id
get_messages-collision w msg ms a b c f t p q = rw (
  get_messages-add_message w msg ms (join_names a b) c,
  f,
  t,
  p,
  q,
  append_assoc,
  eq_self (a ++ (b'_' ∷ b ++ (b'_' ∷ c))),
)
