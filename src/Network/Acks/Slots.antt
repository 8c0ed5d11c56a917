-- ===== src/Network/Acks/Slots.antt =====
-- The callbacks of the messages do not meet: internal/network/ack_handler.go and nack_handler.go.
use t_chat.Base.{
  ◌≡◌, refl, sym, ap, ◌∙◌, Bool, true, false, Option, none, some, List, [], ◌∷◌, String,
  string_comparable, ◌==◌, if◌then◌else◌, GoMap, lookup, store, remove, keep, lookup-store,
  lookup-remove, Bool-cases, eq→≡, Option-cases, inl, inr, All, All-map,
}
use t_chat.Network.Acks.{
  Event, received, registered, cleaned, handle_message, register_callback, register_all, run_events,
}

module _ {A C : Type 0} (id_of : A → String) (id : String) where
  -- One message's callback: at most one is waiting, the next message with the id takes it, and a new
  -- one replaces it.
  unfoldable pub slot_calls : List (Event A C) → Option C → List (C × A)
  slot_calls [] waiting = []
  slot_calls (received none ∷ events) waiting = slot_calls events waiting
  slot_calls (received (some message) ∷ events) none = slot_calls events none
  slot_calls (received (some message) ∷ events) (some callback) =
      let untouched = slot_calls events (some callback) in
      let taken = slot_calls events none in
      if id_of message == id then (callback, message) ∷ taken else untouched
  slot_calls (registered other callback ∷ events) waiting =
      slot_calls events (if other == id then some callback else waiting)
  slot_calls (cleaned ∷ events) waiting = slot_calls events none

  slot_calls-other :
      (message : A) (events : List (Event A C)) (waiting : Option C)
      → (id_of message == id) ≡ false
      → slot_calls (received (some message) ∷ events) waiting ≡ slot_calls events waiting
  unfolding slot_calls
  slot_calls-other message events none other = refl
  slot_calls-other message events (some callback) other = rw other refl

  abbrev pub is_for : C × A → Bool
  is_for call = id_of call.1 == id

module _ {A C : Type 0} (id_of : A → String) (registers : C → A → List (String × C))
    (id : String) where
  -- The callbacks behind a call.
  abbrev after_call : C → A → GoMap String C → GoMap String C
  after_call callback message callbacks =
      remove (id_of message) (register_all (registers callback message) callbacks)

  run_events-free :
      (message : A) (events : List (Event A C)) (callbacks : GoMap String C)
      → lookup (id_of message) callbacks ≡ none
      → run_events id_of registers (received (some message) ∷ events) callbacks
        ≡ run_events id_of registers events callbacks
  unfolding run_events handle_message
  run_events-free message events callbacks free = rw (run_events, handle_message, free) refl

  run_events-found :
      (message : A) (events : List (Event A C)) (callbacks : GoMap String C) {callback : C}
      → lookup (id_of message) callbacks ≡ some callback
      → run_events id_of registers (received (some message) ∷ events) callbacks
        ≡ (callback, message)
          ∷ run_events id_of registers events (after_call callback message callbacks)
  unfolding run_events handle_message
  run_events-found message events callbacks found = rw (run_events, handle_message, found) refl

  keep-own :
      (call : C × A) (calls : List (C × A))
      → is_for id_of id call ≡ true
      → keep (is_for id_of id) (call ∷ calls) ≡ call ∷ keep (is_for id_of id) calls
  keep-own call calls own = rw (own, keep) refl

  keep-foreign :
      (call : C × A) (calls : List (C × A))
      → is_for id_of id call ≡ false
      → keep (is_for id_of id) (call ∷ calls) ≡ keep (is_for id_of id) calls
  keep-foreign call calls foreign = rw (foreign, keep) refl

  slot_calls-own :
      (message : A) (events : List (Event A C)) (callback : C)
      → (id_of message == id) ≡ true
      → slot_calls id_of id (received (some message) ∷ events) (some callback)
        ≡ (callback, message) ∷ slot_calls id_of id events none
  unfolding slot_calls
  slot_calls-own message events callback own = rw own refl

  lookup-register_all :
      (j : String) (entries : List (String × C)) (callbacks : GoMap String C)
      → All (λ entry. (entry.0 == j) ≡ false) entries
      → lookup j (register_all entries callbacks) ≡ lookup j callbacks
  unfolding register_all register_callback
  lookup-register_all j [] callbacks others = refl
  lookup-register_all j ((k, callback) ∷ entries) callbacks others =
      lookup-register_all j entries (store k callback callbacks) others.1
      ∙ lookup-store k j callback callbacks
      ∙ rw others.0 refl

  -- The callbacks of other messages stay, and the own one is gone.
  lookup-after_call :
      (callback : C) (message : A) (callbacks : GoMap String C)
      → All (λ entry. entry.0 ≡ id_of message) (registers callback message)
      → lookup id (after_call callback message callbacks)
        ≡ (if id_of message == id then none else lookup id callbacks)
  lookup-after_call callback message callbacks own =
      let entries = registers callback message in
      lookup-remove (id_of message) id (register_all entries callbacks)
      ∙ elim (Bool-cases (id_of message == id)) [
        | inl same ↦ rw same refl
        | inr other ↦ rw other (
            lookup-register_all id entries callbacks
              (All-map _ _ entries (λ entry e. rw e other) own))
      ]

  -- When each callback registers only for the message that it is called with, if at all, then of all
  -- the calls that a run of the ack or nack handler makes, those with the messages of one id are
  -- those that one slot gives: the next message with the id takes the callback that waits, a new one
  -- replaces it, Cleanup empties the slot, and what the callback itself registers is lost.
  pub run_events-slot_calls :
      ((callback : C) (message : A)
        → All (λ entry. entry.0 ≡ id_of message) (registers callback message))
      → (events : List (Event A C)) (callbacks : GoMap String C)
      → keep (is_for id_of id) (run_events id_of registers events callbacks)
        ≡ slot_calls id_of id events (lookup id callbacks)
  unfolding run_events slot_calls lookup
  run_events-slot_calls own [] callbacks = refl
  run_events-slot_calls own (received none ∷ events) callbacks =
      run_events-slot_calls own events callbacks
  run_events-slot_calls own (received (some message) ∷ events) callbacks =
      let unseen = run_events-slot_calls own events callbacks in
      elim (Bool-cases (id_of message == id)) [
        | inl same ↦
            let at_id : id_of message ≡ id = eq→≡ (id_of message) id same in
            elim (Option-cases (lookup id callbacks)) [
              | inl free ↦
                  rw
                    (
                      run_events-free message events callbacks
                          (ap (λ k. lookup k callbacks) at_id ∙ free),
                      free,
                    )
                    (unseen ∙ ap (slot_calls id_of id events) free)
              | inr (callback, found) ↦
                  let rest =
                    run_events-slot_calls own events (after_call callback message callbacks) in
                  let gone = lookup-after_call callback message callbacks (own callback message) in
                  let calls =
                    run_events id_of registers events (after_call callback message callbacks) in
                  ap (keep (is_for id_of id)) (
                    run_events-found message events callbacks
                      (ap (λ k. lookup k callbacks) at_id ∙ found))
                  ∙ keep-own (callback, message) calls same
                  ∙ ap (λ kept. (callback, message) ∷ kept)
                      (rest ∙ ap (slot_calls id_of id events) (gone ∙ rw same refl))
                  ∙ sym (slot_calls-own message events callback same)
                  ∙ ap (slot_calls id_of id (received (some message) ∷ events)) (sym found)
            ]
        | inr other ↦ elim (Option-cases (lookup (id_of message) callbacks)) [
          | inl free ↦
              rw (run_events-free message events callbacks free) (
                unseen ∙ sym (slot_calls-other id_of id message events (lookup id callbacks) other))
          | inr (callback, found) ↦
              let rest = run_events-slot_calls own events (after_call callback message callbacks) in
              let gone = lookup-after_call callback message callbacks (own callback message) in
              ap (keep (is_for id_of id)) (run_events-found message events callbacks found)
              ∙ keep-foreign (callback, message)
                  (run_events id_of registers events (after_call callback message callbacks)) other
              ∙ rest
              ∙ ap (slot_calls id_of id events) (gone ∙ rw other refl)
              ∙ sym (slot_calls-other id_of id message events (lookup id callbacks) other)
        ]
      ]
  run_events-slot_calls own (registered other callback ∷ events) callbacks =
      run_events-slot_calls own events (store other callback callbacks)
      ∙ ap (slot_calls id_of id events) (lookup-store other id callback callbacks)
  run_events-slot_calls own (cleaned ∷ events) callbacks = run_events-slot_calls own events []
