-- ===== src/Network/Connections/Steps.antt =====
-- What the goroutines do with a manager: internal/network/connection_manager.go.
use t_chat.Base.{ℕ, ◌≡◌, Bool, some, List, ◌∷◌, ◌++◌, String}
use t_chat.Network.Outcome.{returns}
use t_chat.Network.Connections.{
  ConnWrapper, CleanupTask, Attempt, ConnectionManager, Created, new_connection_manager,
  begin_create, create_locked, get_connection, close_connection, monitor_tick, run_task, begin_read,
  end_read, close_wrapper,
}
use t_chat.Network.Connections.Listeners.{
  create_listener, get_listener, close_listener, cleanup_manager,
}

-- One step, from a state to another. Whoever holds a connection may read from it and close it.
pub data Step : ConnectionManager → ConnectionManager → Type 0 where
  begins :
      (now : ℕ) (peer address : String) {cm : ConnectionManager}
      → Step cm (begin_create now peer address cm).0
  finishes :
      (now : ℕ) (dials writes : ℕ → Bool) (left : List Attempt) (call : Attempt)
      (right : List Attempt) (result : Created) {cm cm' : ConnectionManager}
      → cm.limiter ≡ left ++ (call ∷ right)
      → create_locked now dials writes call cm ≡ returns (cm', result)
      → Step cm (record cm' { limiter = left ++ right })
  gets : (peer : String) {cm : ConnectionManager} → Step cm (get_connection peer cm).0
  closes :
      (peer : String) {cm cm' : ConnectionManager}
      → close_connection peer cm ≡ returns (some cm')
      → Step cm cm'
  ticks :
      (writes : ℕ → Bool) (c : ℕ) (peer : String) {cm cm' : ConnectionManager}
      → monitor_tick writes c peer cm ≡ returns cm'
      → Step cm cm'
  reads :
      (c : ℕ) (wrappers : List ConnWrapper) {cm : ConnectionManager}
      → begin_read c cm.wrappers ≡ returns wrappers
      → Step cm (record cm { wrappers = wrappers })
  has_read :
      (c : ℕ) (wrappers : List ConnWrapper) {cm : ConnectionManager}
      → end_read c cm.wrappers ≡ returns wrappers
      → Step cm (record cm { wrappers = wrappers })
  holder_closes :
      (c : ℕ) (wrappers : List ConnWrapper) {cm : ConnectionManager}
      → close_wrapper c cm.wrappers ≡ returns wrappers
      → Step cm (record cm { wrappers = wrappers })
  listens :
      (works : Bool) (address : String) {cm : ConnectionManager}
      → Step cm (create_listener works address cm).0
  gets_listener : (address : String) {cm : ConnectionManager} → Step cm (get_listener address cm).0
  closes_listener :
      (address : String) {cm cm' : ConnectionManager}
      → close_listener address cm ≡ returns (some cm')
      → Step cm cm'
  cleans :
      (task : CleanupTask) (rest : List CleanupTask) {cm : ConnectionManager}
      → cm.cleanup_queue ≡ task ∷ rest
      → Step cm (record (run_task task cm) { cleanup_queue = rest })
  ends : {cm cm' : ConnectionManager} → cleanup_manager cm ≡ returns cm' → Step cm cm'

pub data Steps : ConnectionManager → Type 0 where
  none_yet : Steps new_connection_manager
  further : {cm cm' : ConnectionManager} → Steps cm → Step cm cm' → Steps cm'
