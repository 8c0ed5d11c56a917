-- ===== src/Chat/Store/Unread.antt =====
-- `GetUnreadMessages` of internal/chat/message.go looks only into the sessions whose id begins or
-- ends with the user's name. That loses nothing.
use mathlib.Core.List.{Permᴰ}
use mathlib.Core.List.Permᴰ as Permᴰ
use t_chat.Base.{
  ◌≡◌, refl, subst, false, List, [], ◌∷◌, ◌++◌, Bytes, keep, keep-append, All, All-append, arith,
  inl, inr, Bool-cases, Option-cases, bytes_eq, bytes_eq_iff, some, ◌==◌, eq→≡, lookup, store,
  bytes_comparable, if◌then◌else◌, append_assoc,
}
use t_chat.Chat.Store.{
  Message, Messages, MessageStore, MessageStatus, Write, written, broken, get_session_id,
  is_session_for_user, add_message, or_empty, is_unread, unread_in, get_unread_messages, mark_in,
  mark_sessions, mark, save_messages,
}
use t_chat.Chat.Store.Ids.{is_session_for_user_lem}

abbrev pub all_messages : Messages → List Message
all_messages [] = []
all_messages ((session_id, messages) ∷ rest) = messages ++ all_messages rest

-- Every message lies under the id of its two users.
abbrev pub Filed : Bytes → List Message → Type 0
Filed session_id = All (λ (msg : Message). session_id ≡ get_session_id msg.from msg.to)

abbrev pub IsWellFiled : Messages → Type 0
IsWellFiled = All (λ (entry : Bytes × List Message). Filed entry.0 entry.1)

nothing_unread :
    (u session_id : Bytes) (messages : List Message)
    → Filed session_id messages
    → is_session_for_user session_id u ≡ false
    → keep (is_unread u) messages ≡ []
nothing_unread u session_id [] f h = refl
nothing_unread u session_id (msg ∷ rest) f h = ground (
  arith,
  bytes_eq_iff msg.to u,
  is_session_for_user_lem msg.from msg.to,
  nothing_unread u session_id rest f.1 h,
)

unread_in_lem :
    (u : Bytes) (m : Messages) → IsWellFiled m → unread_in u m ≡ keep (is_unread u) (all_messages m)
unfolding unread_in
unread_in_lem u [] f = refl
unread_in_lem u ((session_id, messages) ∷ rest) f =
    rw (keep-append (is_unread u) messages (all_messages rest), unread_in_lem u rest f.1)
      (elim (Bool-cases (is_session_for_user session_id u)) [
        | inl own ↦ rw own
        | inr foreign ↦ rw (foreign, nothing_unread u session_id messages f.0 foreign)
      ])

-- If every message lies under the id of its users, the unread messages of a user are all the
-- stored messages to that user with the status `sent`.
pub get_unread_messages_lem :
    (u : Bytes) (ms : MessageStore)
    → IsWellFiled ms.messages
    → get_unread_messages u ms ≡ keep (is_unread u) (all_messages ms.messages)
unfolding get_unread_messages
get_unread_messages_lem u ms f = unread_in_lem u ms.messages f

-- The unread messages of one session.
abbrev unread_here : Bytes → Bytes × List Message → List Message
unread_here u entry = if is_session_for_user entry.0 u then keep (is_unread u) entry.1 else []

exchanged : (xs ys zs : List Message) → Permᴰ (xs ++ (ys ++ zs)) (ys ++ (xs ++ zs))
exchanged xs ys zs =
    subst (λ l. Permᴰ l (ys ++ (xs ++ zs))) (append_assoc xs ys zs)
      (subst (Permᴰ ((xs ++ ys) ++ zs)) (append_assoc ys xs zs)
        (Permᴰ.append_right zs (Permᴰ.append_comm xs ys)))

pub unread_in-Permᴰ :
    (u : Bytes) (m m' : Messages) → Permᴰ m m' → Permᴰ (unread_in u m) (unread_in u m')
unfolding unread_in
unread_in-Permᴰ u _ _ Permᴰ.nil = Permᴰ.nil
unread_in-Permᴰ u _ _ (Permᴰ.cons {a = x} {b = y} {l₁ = m} {l₂ = m'} e p) =
    subst (λ z. Permᴰ (unread_in u (x ∷ m)) (unread_in u (z ∷ m'))) e
      (Permᴰ.append_left (unread_here u x) (unread_in-Permᴰ u m m' p))
unread_in-Permᴰ u _ _ (Permᴰ.swap {a = x} {b = y} {a' = y'} {b' = x'} {l = m} e f) =
    subst (λ z. Permᴰ (unread_in u (x ∷ y ∷ m)) (unread_in u (y' ∷ z ∷ m))) e
      (subst (λ z. Permᴰ (unread_in u (x ∷ y ∷ m)) (unread_in u (z ∷ x ∷ m))) f
        (exchanged (unread_here u x) (unread_here u y) (unread_in u m)))
unread_in-Permᴰ u _ _ (Permᴰ.trans {l₁ = l} {l₂ = m} {l₃ = n} p q) =
    Permᴰ.trans (unread_in-Permᴰ u l m p) (unread_in-Permᴰ u m n q)

lookup-Filed : (k : Bytes) (m : Messages) → IsWellFiled m → Filed k (or_empty (lookup k m))
unfolding lookup
lookup-Filed k [] f = tt
lookup-Filed k ((j, l) ∷ m) f = elim (Bool-cases (j == k)) [
  | inl same ↦ rw same (subst (λ i. Filed i l) (eq→≡ j k same) f.0)
  | inr other ↦ rw other (lookup-Filed k m f.1)
]

store-IsWellFiled :
    (k : Bytes) (l : List Message) (m : Messages)
    → Filed k l
    → IsWellFiled m
    → IsWellFiled (store k l m)
unfolding store
store-IsWellFiled k l [] h f = (h, tt)
store-IsWellFiled k l ((j, l') ∷ m) h f = elim (Bool-cases (j == k)) [
  | inl same ↦ rw same (h, f.1)
  | inr other ↦ rw other (f.0, store-IsWellFiled k l m h f.1)
]

-- If every message lies under the id of its users, so it is after `AddMessage`, whether or not the
-- write succeeds.
pub add_message-IsWellFiled :
    (w : Write) (msg : Message) (ms : MessageStore)
    → IsWellFiled ms.messages
    → IsWellFiled (add_message w msg ms).0.messages
unfolding add_message
add_message-IsWellFiled w msg ms f = by_write w
  where
    filed : IsWellFiled (
        store
          (get_session_id msg.from msg.to)
          (or_empty (lookup (get_session_id msg.from msg.to) ms.messages) ++ (msg ∷ []))
          ms.messages)
    filed =
        store-IsWellFiled _ _ ms.messages
          (All-append _ (or_empty (lookup (get_session_id msg.from msg.to) ms.messages)) (msg ∷ [])
            (lookup-Filed _ ms.messages f) (refl, tt))
          f

    by_write : (w : Write) → IsWellFiled (add_message w msg ms).0.messages
    by_write written = filed
    by_write (broken left) = filed

pub save_messages-messages :
    (w : Write) (ms : MessageStore) → (save_messages w ms).0.messages ≡ ms.messages
unfolding save_messages
save_messages-messages written ms = refl
save_messages-messages (broken left) ms = refl

mark_in-Filed :
    (s : MessageStatus) (id k : Bytes) (l l' : List Message)
    → Filed k l
    → mark_in s id l ≡ some l'
    → Filed k l'
unfolding mark_in
mark_in-Filed s id k [] l' f h = cc
mark_in-Filed s id k (msg ∷ rest) l' f h = elim (Bool-cases (bytes_eq msg.id id)) [
  | inl hit ↦ let e : record msg { status = s } ∷ rest ≡ l' = ground arith in subst (Filed k) e f
  | inr miss ↦ elim (Option-cases (mark_in s id rest)) [
    | inl gone ↦ absurd (ground arith)
    | inr (rest', found) ↦
        let e : msg ∷ rest' ≡ l' = ground arith in
        subst (Filed k) e (f.0, mark_in-Filed s id k rest rest' f.1 found)
  ]
]

mark_sessions-IsWellFiled :
    (s : MessageStatus) (id : Bytes) (m m' : Messages)
    → IsWellFiled m
    → mark_sessions s id m ≡ some m'
    → IsWellFiled m'
unfolding mark_sessions
mark_sessions-IsWellFiled s id [] m' f h = cc
mark_sessions-IsWellFiled s id ((k, l) ∷ m) m' f h = elim (Option-cases (mark_in s id l)) [
  | inr (l', found) ↦
      let e : (k, l') ∷ m ≡ m' = ground arith in
      subst IsWellFiled e (mark_in-Filed s id k l l' f.0 found, f.1)
  | inl miss ↦ elim (Option-cases (mark_sessions s id m)) [
    | inl gone ↦ absurd (ground arith)
    | inr (rest, found) ↦
        let e : (k, l) ∷ rest ≡ m' = ground arith in
        subst IsWellFiled e (f.0, mark_sessions-IsWellFiled s id m rest f.1 found)
  ]
]

-- If every message lies under the id of its users, so it is after a `Mark…` method.
pub mark-IsWellFiled :
    (s : MessageStatus) (w : Write) (id : Bytes) (ms : MessageStore)
    → IsWellFiled ms.messages
    → IsWellFiled (mark s w id ms).0.messages
unfolding mark
mark-IsWellFiled s w id ms f = elim (Option-cases (mark_sessions s id ms.messages)) [
  | inl gone ↦ rw (gone, mark) f
  | inr (m', found) ↦
      rw (found, mark, save_messages-messages w (record ms { messages = m' }))
        (mark_sessions-IsWellFiled s id ms.messages m' f found)
]
