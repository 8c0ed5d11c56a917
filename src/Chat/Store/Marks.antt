-- ===== src/Chat/Store/Marks.antt =====
-- `MarkAsRead`, `MarkAsDelivered` and `MarkFailed` of internal/chat/message.go against the flat
-- list of all messages.
use t_chat.Base.{
  ◌≡◌, refl, sym, ap, subst, false, List, [], ◌∷◌, ◌++◌, Bytes, map, All, arith, inl, inr,
  Bool-cases, Option-cases, bytes_eq, bytes_eq_iff, some, none, ◌↔◌, ◌≢◌, bytes_comparable,
  if◌then◌else◌,
}
use t_chat.Chat.Store.{
  Message, Messages, MessageStore, MessageStatus, Write, written, broken, message_not_found,
  mark_in, mark_sessions, mark, save_messages,
}
use t_chat.Chat.Store.Unread.{all_messages, save_messages-messages}

abbrev pub Fresh : Bytes → List Message → Type 0
Fresh id = All (λ (msg : Message). bytes_eq msg.id id ≡ false)

-- No two messages have one id.
abbrev pub DistinctIds : List Message → Type 0
DistinctIds [] = Unit {0}
DistinctIds (msg ∷ rest) = Fresh msg.id rest × DistinctIds rest

abbrev pub with_status : MessageStatus → Bytes → Message → Message
with_status s id msg = if bytes_eq msg.id id then record msg { status = s } else msg

map-Fresh :
    (s : MessageStatus) (id : Bytes) (l : List Message) → Fresh id l → map (with_status s id) l ≡ l
map-Fresh s id [] f = refl
map-Fresh s id (msg ∷ rest) f = rw f.0 (ap (λ t. msg ∷ t) (map-Fresh s id rest f.1))

mark_in-none :
    (s : MessageStatus) (id : Bytes) (l : List Message) → mark_in s id l ≡ none → Fresh id l
unfolding mark_in
mark_in-none s id [] h = tt
mark_in-none s id (msg ∷ rest) h = (ground arith, mark_in-none s id rest (ground arith))

mark_in_of_Fresh :
    (s : MessageStatus) (id : Bytes) (l : List Message) → Fresh id l → mark_in s id l ≡ none
unfolding mark_in
mark_in_of_Fresh s id [] h = refl
mark_in_of_Fresh s id (msg ∷ rest) h = ground (arith, mark_in_of_Fresh s id rest h.1)

mark_in-some :
    (s : MessageStatus) (id : Bytes) (l l' : List Message)
    → DistinctIds l
    → mark_in s id l ≡ some l'
    → l' ≡ map (with_status s id) l
unfolding mark_in
mark_in-some s id [] l' d h = cc
mark_in-some s id (msg ∷ rest) l' d h = elim (Bool-cases (bytes_eq msg.id id)) [
  | inl hit ↦
      let e : rest ≡ map (with_status s id) rest =
        sym
          (map-Fresh s id rest (subst (λ i. Fresh i rest) ((bytes_eq_iff msg.id id).0 hit) d.0)) in
      rw hit (ground (arith, e))
  | inr miss ↦ elim (Option-cases (mark_in s id rest)) [
    | inl gone ↦ absurd (ground arith)
    | inr (rest', found) ↦ rw miss (ground (arith, mark_in-some s id rest rest' d.1 found))
  ]
]

-- The nested loops find what one loop over all messages would find.
mark_sessions-mark_in :
    (s : MessageStatus) (id : Bytes) (m : Messages)
    → mark_in s id (all_messages m)
      ≡ elim (mark_sessions s id m) [ none ↦ none | some m' ↦ some (all_messages m') ]
unfolding mark_sessions mark_in
mark_sessions-mark_in s id [] = refl
mark_sessions-mark_in s id ((k, l) ∷ m) =
    ground (arith, mark_in-append l (all_messages m), mark_sessions-mark_in s id m)
  where
    mark_in-append :
        (xs ys : List Message)
        → mark_in s id (xs ++ ys) ≡ elim (mark_in s id xs) [
          | some xs' ↦ some (xs' ++ ys)
          | none ↦ elim (mark_in s id ys) [ none ↦ none | some ys' ↦ some (xs ++ ys') ]
        ]
    mark_in-append [] ys = ground arith
    mark_in-append (x ∷ xs) ys = ground (arith, mark_in-append xs ys)

save_messages-found :
    (w : Write) (id : Bytes) (ms : MessageStore)
    → (save_messages w ms).1 ≢ some (message_not_found id)
unfolding save_messages
save_messages-found written id ms h = cc
save_messages-found (broken left) id ms h = cc

-- A `Mark…` method says that there is no such message exactly when no stored message has the id.
pub mark_missing :
    (s : MessageStatus) (w : Write) (id : Bytes) (ms : MessageStore)
    → ((mark s w id ms).1 ≡ some (message_not_found id)) ↔ Fresh id (all_messages ms.messages)
unfolding mark
mark_missing s w id ms = elim (Option-cases (mark_sessions s id ms.messages)) [
  | inl gone ↦ (
    λ _. mark_in-none s id _ (rw (mark_sessions-mark_in s id ms.messages, gone)),
    λ _. rw (gone, mark),
  )
  | inr (m', found) ↦ (
    λ e. absurd (save_messages-found w id (record ms { messages = m' }) (rw (found, mark) at e)),
    λ f. absurd (
        ground (
          arith,
          mark_sessions-mark_in s id ms.messages,
          mark_in_of_Fresh s id (all_messages ms.messages) f,
        )),
  )
]

-- When it finds the message, and the ids are distinct, exactly that message has the new status
-- afterwards, in memory also if the write fails.
pub mark_found :
    (s : MessageStatus) (w : Write) (id : Bytes) (ms : MessageStore)
    → DistinctIds (all_messages ms.messages)
    → (mark s w id ms).1 ≢ some (message_not_found id)
    → all_messages (mark s w id ms).0.messages ≡ map (with_status s id) (all_messages ms.messages)
unfolding mark
mark_found s w id ms d h = elim (Option-cases (mark_sessions s id ms.messages)) [
  | inl gone ↦ absurd (h (rw (gone, mark)))
  | inr (m', found) ↦
      rw (found, mark, save_messages-messages w (record ms { messages = m' }))
        (mark_in-some s id (all_messages ms.messages) (all_messages m') d
          (rw (mark_sessions-mark_in s id ms.messages, found)))
]
