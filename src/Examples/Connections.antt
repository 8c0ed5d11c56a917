-- ===== src/Examples/Connections.antt =====
-- A connection that is closed, and the next one to the same peer:
-- internal/network/connection_manager.go.
use t_chat.Base.{
  ℕ, ◌≤◌, ◌≡◌, refl, Bool, true, false, none, some, [], ◌∷◌, arith, string_comparable, field_at,
  length, lookup, store,
}
use t_chat.Network.Outcome.{returns}
use t_chat.Network.Connections.{
  close_wrapper, without, ConnectionManager, ConnWrapper, Attempt, connection_task, connected,
  connect, begin_create, get_connection, run_task, is_closed, dial_loop, create_locked,
  queue_capacity, limiter_capacity, new_connection_manager,
}
use t_chat.Network.Connections.Listeners.{cleanup_manager}
use t_chat.Network.Connections.Steps.{Step, Steps}
use t_chat.Network.Connections.Invariant.{get_connection-Steps}
use t_chat.Network.Connections.Linked.{get_connection-create_locked}
use t_chat.Network.Connections.Stale.{run_task-IsLost}

abbrev call : Attempt
call = record { peer = "bob"; address = "10.0.0.2:7" }

-- The first connection has been closed, and the peer has another.
abbrev again : ConnectionManager
again = record {
  wrappers =
      record { peer_id = "bob"; closed = true; readers = 0 }
      ∷ record { peer_id = "bob"; closed = false; readers = 0 }
      ∷ [];
  connections = ("bob", 1) ∷ [];
  listener_wrappers = [];
  listeners = [];
  cleanup_queue = connection_task "bob" ∷ [];
  limiter = [];
  last_connect_time = ("10.0.0.2:7", 50) ∷ [];
  canceled = false;
}

run_task-IsLost_example :
    ((get_connection "bob" (run_task (connection_task "bob") again)).1 ≡ none)
    × (is_closed 1 (run_task (connection_task "bob") again).wrappers ≡ false)
    × ((ended : ConnectionManager)
        → cleanup_manager (run_task (connection_task "bob") again) ≡ returns ended
        → is_closed 1 ended.wrappers ≡ false)
unfolding get_connection lookup
run_task-IsLost_example =
    run_task-IsLost "bob" 1 again
      (record { filed = (refl, tt); queue = omega arith; tokens = omega arith }) refl

abbrev dials : ℕ → Bool
dials n = true

abbrev waiting : ConnectionManager
waiting = (begin_create 5 "bob" "10.0.0.2:7" new_connection_manager).0

abbrev linked : ConnectionManager
linked = record ((connect 5 dials call waiting).0) { limiter = [] }

linked-Steps : Steps linked
unfolding begin_create new_connection_manager create_locked lookup connect dial_loop
linked-Steps = Steps.further (Steps.further Steps.none_yet (Step.begins 5 "bob" "10.0.0.2:7")) (
    Step.finishes 5 dials dials [] call [] (connected 0) {cm = waiting}
      {cm' = (connect 5 dials call waiting).0} refl refl)

get_connection-Steps_example :
    (field_at (λ (w : ConnWrapper). w.peer_id) linked.wrappers 0 ≡ some "bob")
    × (is_closed 0 linked.wrappers ≡ false)
    × (length linked.cleanup_queue ≤ queue_capacity)
    × (length linked.limiter ≤ limiter_capacity)
unfolding get_connection connect begin_create new_connection_manager lookup store dial_loop
get_connection-Steps_example = get_connection-Steps "bob" linked-Steps refl

-- The holder of the first connection has closed it, and CreateConnection makes another.
abbrev shut_off : ConnectionManager
shut_off = record linked { wrappers = record { peer_id = "bob"; closed = true; readers = 0 } ∷ [] }

shut_off-Steps : Steps shut_off
unfolding close_wrapper connect begin_create new_connection_manager dial_loop lookup
shut_off-Steps = Steps.further linked-Steps (
    Step.holder_closes 0 (record { peer_id = "bob"; closed = true; readers = 0 } ∷ []) {cm = linked}
      refl)

abbrev linked_again : ConnectionManager
linked_again = (connect 9 dials call (without "bob" shut_off.wrappers shut_off)).0

get_connection-create_locked_example :
    ((get_connection "bob" linked_again).1 ≡ some 1)
    × (field_at (λ (w : ConnWrapper). w.peer_id) linked_again.wrappers 1 ≡ some "bob")
unfolding create_locked connect begin_create new_connection_manager lookup store dial_loop
get_connection-create_locked_example =
    get_connection-create_locked 9 dials dials call {cm = shut_off} {cm' = linked_again} {c = 1}
      shut_off-Steps refl
