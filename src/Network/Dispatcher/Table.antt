-- ===== src/Network/Dispatcher/Table.antt =====
-- The table of handlers of internal/network/dispatcher.go through any sequence of calls.
use t_chat.Base.{
  ◌≡◌, ◌≢◌, ◌⊎◌, sym, subst, refl, inl, inr, true, false, Option, none, some, String,
  string_comparable, ◌==◌, arith, Bool-cases, Option-cases, All, All-lookup, All-store, All-remove,
  lookup, store, lookup-store,
}
use t_chat.Network.Sorting.{Sorter}
use t_chat.Network.Dispatcher.{
  Handler, Dispatcher, new_dispatcher, register_handler, unregister_handler, set_default_handler,
  cleanup_dispatcher, choose_handler,
}

-- From a new dispatcher, by calls of its methods.
pub data Reachable {M : Type 0} : Dispatcher M → Type 0 where
  initially : Reachable new_dispatcher
  registered :
      {d : Dispatcher M} (h : Option (Handler M)) → Reachable d → Reachable (register_handler h d).0
  unregistered :
      {d : Dispatcher M} (k : String) → Reachable d → Reachable (unregister_handler k d).0
  default_set :
      {d : Dispatcher M} (h : Option (Handler M))
      → Reachable d
      → Reachable (set_default_handler h d)
  cleaned : {d : Dispatcher M} → Reachable d → Reachable (cleanup_dispatcher d)

module _ {M : Type 0} where
  -- The handler is registered for its own type, which is not empty.
  abbrev IsTyped : String × Handler M → Type 0
  IsTyped kv = (kv.1.message_type ≡ kv.0) × ((kv.0 == "") ≡ false)

  -- Either there is an error and nothing changes, or the handler is stored under its type.
  register_handler-cases :
      (h : Handler M) (d : Dispatcher M)
      → (((register_handler (some h) d).0 ≡ d) × ((register_handler (some h) d).1 ≢ none))
        ⊎ (((register_handler (some h) d).0.handlers ≡ store h.message_type h d.handlers)
            × ((h.message_type == "") ≡ false))
  unfolding register_handler
  register_handler-cases h d = elim (Bool-cases (h.message_type == "")) [
    | inl empty ↦ inl (ground (arith, empty))
    | inr typed ↦ elim (Option-cases (lookup h.message_type d.handlers)) [
      | inr (g, present) ↦ inl (ground (arith, typed, present))
      | inl absent ↦ elim (Bool-cases h.initialize) [
        | inl ready ↦ inr (ground (arith, typed, absent, ready))
        | inr unready ↦ inl (ground (arith, typed, absent, unready))
      ]
    ]
  ]

  register_handler-IsTyped :
      (h : Option (Handler M)) (d : Dispatcher M)
      → All IsTyped d.handlers
      → All IsTyped (register_handler h d).0.handlers
  unfolding register_handler
  register_handler-IsTyped none d a = a
  register_handler-IsTyped (some h) d a = elim (register_handler-cases h d) [
    | inl (same, failed) ↦ subst (λ (d : Dispatcher M). All IsTyped d.handlers) (sym same) a
    | inr (stored, typed) ↦
        subst (All IsTyped) (sym stored)
          (All-store IsTyped h.message_type h d.handlers (refl, typed) a)
  ]

  unregister_handler-IsTyped :
      (k : String) (d : Dispatcher M)
      → All IsTyped d.handlers
      → All IsTyped (unregister_handler k d).0.handlers
  unfolding unregister_handler
  unregister_handler-IsTyped k d a = elim (Option-cases (lookup k d.handlers)) [
    | inl absent ↦ rw (absent, unregister_handler) a
    | inr (h, present) ↦ rw (present, unregister_handler) (All-remove IsTyped k d.handlers a)
  ]

  Reachable-IsTyped : (d : Dispatcher M) → Reachable d → All IsTyped d.handlers
  unfolding new_dispatcher set_default_handler cleanup_dispatcher
  Reachable-IsTyped _ Reachable.initially = tt
  Reachable-IsTyped _ (Reachable.registered {d = d} h r) =
      register_handler-IsTyped h d (Reachable-IsTyped d r)
  Reachable-IsTyped _ (Reachable.unregistered {d = d} k r) =
      unregister_handler-IsTyped k d (Reachable-IsTyped d r)
  Reachable-IsTyped _ (Reachable.default_set {d = d} h r) = Reachable-IsTyped d r
  Reachable-IsTyped _ (Reachable.cleaned r) = tt

-- Whatever calls made the dispatcher, the handler that it finds for a type is one for this type,
-- and the type is not empty.
pub lookup-Reachable :
    {M : Type 0} (d : Dispatcher M) (k : String) (h : Handler M)
    → Reachable d
    → lookup k d.handlers ≡ some h
    → (h.message_type ≡ k) × ((k == "") ≡ false)
lookup-Reachable d k h r e = All-lookup IsTyped k d.handlers (Reachable-IsTyped d r) e

-- Once a handler has been registered without an error, DispatchMessage calls it for the messages of
-- its type that it can handle, whatever the default handler and the other handlers are.
pub choose_handler-register_handler :
    {M : Type 0} (sorter : Sorter) (msg : M) (h : Handler M) (d : Dispatcher M)
    → (register_handler (some h) d).1 ≡ none
    → h.can_handle msg ≡ true
    → choose_handler sorter h.message_type msg (register_handler (some h) d).0 ≡ some h
unfolding choose_handler
choose_handler-register_handler sorter msg h d e can = elim (register_handler-cases h d) [
  | inl (same, failed) ↦ absurd (failed e)
  | inr (stored, typed) ↦
      let found : lookup h.message_type (register_handler (some h) d).0.handlers ≡ some h =
        at stored in
      rw (found, can, choose_handler) refl
]
  where
    at :
        (register_handler (some h) d).0.handlers ≡ store h.message_type h d.handlers
        → lookup h.message_type (register_handler (some h) d).0.handlers ≡ some h
    at stored = rw stored (
        ground (
          arith,
          lookup-store h.message_type h.message_type h d.handlers,
          string_comparable.equals_iff h.message_type h.message_type,
        ))
