-- ===== src/Network/Dispatcher.antt =====
-- Which handler gets a message: internal/network/dispatcher.go. A handler is a record of what its
-- methods return, a message is of any type with its Type as a function, and sort.Slice is a function.
-- The lock and the logger are not modelled.
pub mod Choice
pub mod Table
use t_chat.Base.{
  ℕ, Bool, true, false, Option, none, some, List, [], ◌∷◌, String, string_comparable, ◌==◌, ltb,
  if◌then◌else◌, map, keep, length, GoMap, lookup, store, remove,
}
use t_chat.Network.Sorting.{Sorter}

-- MessageHandlerInterface; an error is its text.
pub record Handler (M : Type 0) : Type 0 where
  pub message_type : String
  pub priority : ℕ
  pub can_handle : M → Bool
  pub handle_message : M → Option String
  pub initialize : Bool

pub record Dispatcher (M : Type 0) : Type 0 where
  pub handlers : GoMap String (Handler M)
  pub default_handler : Option (Handler M)

pub data DispatchError : Type 0 where
  no_handler empty_type already_registered not_initialized not_registered handler_not_found :
      DispatchError
  handling_failed : String → DispatchError

module _ {M : Type 0} where
  unfoldable pub new_dispatcher : Dispatcher M
  new_dispatcher = record { handlers = []; default_handler = none }

  unfoldable pub register_handler :
      Option (Handler M) → Dispatcher M → Dispatcher M × Option DispatchError
  register_handler none d = (d, some no_handler)
  register_handler (some h) d =
      if h.message_type == ""
      then (d, some empty_type)
      else elim (lookup h.message_type d.handlers) [
        | some _ ↦ (d, some already_registered)
        | none ↦
            if h.initialize
            then (record d { handlers = store h.message_type h d.handlers }, none)
            else (d, some not_initialized)
      ]

  unfoldable pub unregister_handler : String → Dispatcher M → Dispatcher M × Option DispatchError
  unregister_handler message_type d = elim (lookup message_type d.handlers) [
    | none ↦ (d, some not_registered)
    | some _ ↦ (record d { handlers = remove message_type d.handlers }, none)
  ]

  unfoldable pub set_default_handler : Option (Handler M) → Dispatcher M → Dispatcher M
  set_default_handler h d = record d { default_handler = h }

  unfoldable pub cleanup_dispatcher : Dispatcher M → Dispatcher M
  cleanup_dispatcher d = record { handlers = []; default_handler = none }

  abbrev pub higher_priority : Handler M → Handler M → Bool
  higher_priority g h = ltb h.priority g.priority

  unfoldable pub get_handlers_by_priority : Sorter → Dispatcher M → List (Handler M)
  get_handlers_by_priority sorter d =
      sorter.sort_slice higher_priority (map (λ kv. kv.1) d.handlers)

  -- The registered handlers that can handle the message.
  unfoldable pub candidates : M → Dispatcher M → List (Handler M)
  candidates msg d = keep (λ h. h.can_handle msg) (map (λ kv. kv.1) d.handlers)

  abbrev pub accepts : M → Option (Handler M) → Bool
  accepts msg none = false
  accepts msg (some h) = h.can_handle msg

  abbrev pub first_handler : List (Handler M) → Option (Handler M)
  first_handler [] = none
  first_handler (h ∷ hs) = some h

  -- The handler that `DispatchMessage` calls.
  unfoldable pub choose_handler : Sorter → String → M → Dispatcher M → Option (Handler M)
  unfolding candidates
  choose_handler sorter message_type msg d =
      if accepts msg (lookup message_type d.handlers)
      then lookup message_type d.handlers
      else if accepts msg d.default_handler
      then d.default_handler
      else first_handler (sorter.sort_slice higher_priority (candidates msg d))

  unfoldable pub dispatch_message : Sorter → String → M → Dispatcher M → Option DispatchError
  unfolding choose_handler
  dispatch_message sorter message_type msg d = elim (choose_handler sorter message_type msg d) [
    | none ↦ some handler_not_found
    | some h ↦ elim (h.handle_message msg) [ none ↦ none | some e ↦ some (handling_failed e) ]
  ]
