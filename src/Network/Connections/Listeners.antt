-- ===== src/Network/Connections/Listeners.antt =====
-- The listeners, and the end of the manager: internal/network/connection_manager.go.
use t_chat.Base.{
  ℕ, Bool, true, false, Option, none, some, List, [], ◌∷◌, ◌++◌, String, string_comparable, ◌==◌,
  ltb, if◌then◌else◌, GoMap, lookup, store, remove, length, get_elem?, write_at_index,
}
use t_chat.Network.Outcome.{Outcome, returns, waits, ◌>>=◌, load_at}
use t_chat.Network.Connections.{
  ConnWrapper, ConnectionManager, ListenerWrapper, listener_task, queue_capacity, close_wrapper,
}

abbrev pub is_listener_closed : ℕ → List ListenerWrapper → Bool
is_listener_closed l wrappers = elim (get_elem? wrappers l) [ none ↦ true | some w ↦ w.closed ]

unfoldable pub close_listener_wrapper : ℕ → List ListenerWrapper → Outcome (List ListenerWrapper)
close_listener_wrapper l wrappers = load_at l wrappers >>= λ w.
    if ltb 0 w.accepting
    then waits
    else returns (write_at_index l (λ v. record v { closed = true }) wrappers)

pub data ListenError : Type 0 where
  no_listen_address cannot_listen : ListenError

-- `listens` tells if net.Listen succeeds.
unfoldable pub listen : Bool → String → ConnectionManager → ConnectionManager × Option ListenError
listen listens address cm =
    if listens
    then (
      record cm {
        listener_wrappers = cm.listener_wrappers ++ (record { closed = false; accepting = 0 } ∷ []);
        listeners = store address (length cm.listener_wrappers) cm.listeners;
      },
      none,
    )
    else (cm, some cannot_listen)

unfoldable pub create_listener :
    Bool → String → ConnectionManager → ConnectionManager × Option ListenError
create_listener listens address cm =
    if address == "" then (cm, some no_listen_address) else elim (lookup address cm.listeners) [
      | none ↦ listen listens address cm
      | some l ↦
          if is_listener_closed l cm.listener_wrappers
          then listen listens address (record cm { listeners = remove address cm.listeners })
          else (cm, none)
    ]

unfoldable pub get_listener : String → ConnectionManager → ConnectionManager × Option ℕ
get_listener address cm = elim (lookup address cm.listeners) [
  | none ↦ (cm, none)
  | some l ↦
      if is_listener_closed l cm.listener_wrappers
      then (
        if ltb (length cm.cleanup_queue) queue_capacity
            then record cm { cleanup_queue = cm.cleanup_queue ++ (listener_task address ∷ []) }
            else record cm { listeners = remove address cm.listeners },
        none,
      )
      else (cm, some l)
]

unfoldable pub close_listener : String → ConnectionManager → Outcome (Option ConnectionManager)
close_listener address cm = elim (lookup address cm.listeners) [
  | none ↦ returns none
  | some l ↦ close_listener_wrapper l cm.listener_wrappers >>= λ wrappers.
      returns
        (some (record cm { listener_wrappers = wrappers; listeners = remove address cm.listeners }))
]

unfoldable pub close_all : GoMap String ℕ → List ConnWrapper → Outcome (List ConnWrapper)
close_all [] wrappers = returns wrappers
close_all ((peer, c) ∷ rest) wrappers = close_wrapper c wrappers >>= λ ws. close_all rest ws

unfoldable pub close_all_listeners :
    GoMap String ℕ → List ListenerWrapper → Outcome (List ListenerWrapper)
close_all_listeners [] wrappers = returns wrappers
close_all_listeners ((address, l) ∷ rest) wrappers =
    close_listener_wrapper l wrappers >>= λ ws. close_all_listeners rest ws

-- Cleanup of the manager.
unfoldable pub cleanup_manager : ConnectionManager → Outcome ConnectionManager
cleanup_manager cm = close_all cm.connections cm.wrappers >>= λ wrappers.
    close_all_listeners cm.listeners cm.listener_wrappers >>= λ listener_wrappers.
    returns (record cm {
      canceled = true;
      wrappers = wrappers;
      listener_wrappers = listener_wrappers;
      connections = [];
      listeners = [];
    })
