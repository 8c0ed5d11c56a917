-- ===== src/Network/Connections.antt =====
-- The table of connections: internal/network/connection_manager.go. A connection is an address in a
-- store of wrappers; whether dialing and writing succeed, and the time, are arguments. An operation
-- on a wrapper whose lock a reader holds waits.
pub mod Listeners
pub mod Steps
pub mod Tracked
pub mod Closing
pub mod Invariant
pub mod Stale
pub mod Linked
use t_chat.Base.{
  ℕ, zero, suc, ◌+◌, ◌-◌, ◌*◌, Bool, true, false, not, ◌&&◌, Option, none, some, List, [], ◌∷◌,
  ◌++◌, String, string_comparable, ◌==◌, ltb, leb, eqb, if◌then◌else◌, GoMap, lookup, store, remove,
  length, get_elem?, write_at_index,
}
use t_chat.Network.Outcome.{Outcome, returns, panics, waits, ◌>>=◌, load_at}

-- A ConnWrapper, with the number of goroutines that are in its Read or Write, under its read lock.
pub record ConnWrapper : Type 0 where
  pub peer_id : String
  pub closed : Bool
  pub readers : ℕ

pub data CleanupTask : Type 0 where
  connection_task listener_task : String → CleanupTask

-- A call of CreateConnection that has a token of the limiter and waits for the lock.
pub record Attempt : Type 0 where
  pub peer : String
  pub address : String

pub record ListenerWrapper : Type 0 where
  pub closed : Bool
  pub accepting : ℕ

pub record ConnectionManager : Type 0 where
  pub wrappers : List ConnWrapper
  pub connections : GoMap String ℕ
  pub listener_wrappers : List ListenerWrapper
  pub listeners : GoMap String ℕ
  pub cleanup_queue : List CleanupTask
  pub limiter : List Attempt
  pub last_connect_time : GoMap String ℕ
  pub canceled : Bool

unfoldable pub new_connection_manager : ConnectionManager
new_connection_manager = record {
  wrappers = [];
  connections = [];
  listener_wrappers = [];
  listeners = [];
  cleanup_queue = [];
  limiter = [];
  last_connect_time = [];
  canceled = false;
}

-- The capacities of the two channels.
abbrev pub queue_capacity : ℕ
queue_capacity = 50

abbrev pub limiter_capacity : ℕ
limiter_capacity = 10

-- Two seconds, in nanoseconds.
abbrev pub connect_interval : ℕ
connect_interval = 2_000_000_000

-- `NewConnWrapper`
abbrev pub new_wrapper : String → ConnWrapper
new_wrapper peer = record { peer_id = peer; closed = false; readers = 0 }

-- `ConnWrapper.IsClosed`
abbrev pub is_closed : ℕ → List ConnWrapper → Bool
is_closed c wrappers = elim (get_elem? wrappers c) [ none ↦ true | some w ↦ w.closed ]

-- `ConnWrapper.Close` wants the write lock.
unfoldable pub close_wrapper : ℕ → List ConnWrapper → Outcome (List ConnWrapper)
close_wrapper c wrappers = load_at c wrappers >>= λ w.
    if ltb 0 w.readers
    then waits
    else returns (write_at_index c (λ v. record v { closed = true }) wrappers)

-- `ConnWrapper.Read` up to its wait for bytes: the read lock is taken, and kept if it is open.
unfoldable pub begin_read : ℕ → List ConnWrapper → Outcome (List ConnWrapper)
begin_read c wrappers = load_at c wrappers >>= λ w.
    if w.closed
    then returns wrappers
    else returns (write_at_index c (λ v. record v { readers = suc v.readers }) wrappers)

unfoldable pub end_read : ℕ → List ConnWrapper → Outcome (List ConnWrapper)
end_read c wrappers = load_at c wrappers >>= λ w.
    returns (write_at_index c (λ v. record v { readers = v.readers - 1 }) wrappers)

-- `writes c` tells if the empty write to the connection succeeds.
unfoldable pub is_connection_healthy : (ℕ → Bool) → ℕ → List ConnWrapper → Bool
is_connection_healthy writes c wrappers = not (is_closed c wrappers) && writes c

pub data CreateError : Type 0 where
  no_peer no_address too_frequent too_many dial_failed : CreateError

pub data Created : Type 0 where
  connected : ℕ → Created
  refused : CreateError → Created

-- CreateConnection up to the lock.
unfoldable pub begin_create :
    ℕ → String → String → ConnectionManager → ConnectionManager × Option CreateError
begin_create now peer address cm =
    if peer == ""
    then (cm, some no_peer)
    else if address == ""
    then (cm, some no_address)
    else if elim (lookup address cm.last_connect_time) [
      | none ↦ false
      | some last ↦ ltb (now - last) connect_interval
    ]
    then (cm, some too_frequent)
    else if leb limiter_capacity (length cm.limiter)
    then (cm, some too_many)
    else (
      record cm { limiter = cm.limiter ++ (record { peer = peer; address = address } ∷ []) },
      none,
    )

-- Up to three attempts to dial.
unfoldable pub dial_loop : (ℕ → Bool) → ℕ → ℕ → Bool
dial_loop dials zero attempt = false
dial_loop dials (suc n) attempt =
    let rest = dial_loop dials n (suc attempt) in if dials attempt then true else rest

abbrev pub allocated : String → ConnectionManager → ConnectionManager
allocated peer cm = record cm {
  wrappers = cm.wrappers ++ (new_wrapper peer ∷ []);
  connections = store peer (length cm.wrappers) cm.connections;
}

-- CreateConnection behind the check for a connection that is there.
unfoldable pub connect : ℕ → (ℕ → Bool) → Attempt → ConnectionManager → ConnectionManager × Created
connect now dials call cm =
    let cm' : ConnectionManager = record cm {
      last_connect_time = store call.address now cm.last_connect_time;
    } in
    if dial_loop dials 3 0
    then (allocated call.peer cm', connected (length cm.wrappers))
    else (cm', refused dial_failed)

abbrev pub without : String → List ConnWrapper → ConnectionManager → ConnectionManager
without peer wrappers cm = record cm {
  wrappers = wrappers;
  connections = remove peer cm.connections;
}

-- CreateConnection under the lock.
unfoldable pub create_locked :
    ℕ
    → (ℕ → Bool)
    → (ℕ → Bool)
    → Attempt
    → ConnectionManager
    → Outcome (ConnectionManager × Created)
create_locked now dials writes call cm = elim (lookup call.peer cm.connections) [
  | none ↦ returns (connect now dials call cm)
  | some c ↦
      if is_closed c cm.wrappers
      then returns (connect now dials call (without call.peer cm.wrappers cm))
      else if is_connection_healthy writes c cm.wrappers
      then returns (cm, connected c)
      else close_wrapper c cm.wrappers >>= λ wrappers.
          returns (connect now dials call (without call.peer wrappers cm))
]

-- A task goes into the queue, or its entry is deleted at once.
unfoldable pub get_connection : String → ConnectionManager → ConnectionManager × Option ℕ
get_connection peer cm = elim (lookup peer cm.connections) [
  | none ↦ (cm, none)
  | some c ↦
      if is_closed c cm.wrappers
      then (
        if ltb (length cm.cleanup_queue) queue_capacity
            then record cm { cleanup_queue = cm.cleanup_queue ++ (connection_task peer ∷ []) }
            else record cm { connections = remove peer cm.connections },
        none,
      )
      else (cm, some c)
]

-- `none` if there is no such connection.
unfoldable pub close_connection : String → ConnectionManager → Outcome (Option ConnectionManager)
close_connection peer cm = elim (lookup peer cm.connections) [
  | none ↦ returns none
  | some c ↦ close_wrapper c cm.wrappers >>= λ wrappers. returns (some (without peer wrappers cm))
]

-- One tick of monitorConnection.
unfoldable pub monitor_tick :
    (ℕ → Bool) → ℕ → String → ConnectionManager → Outcome ConnectionManager
monitor_tick writes c peer cm =
    if is_connection_healthy writes c cm.wrappers
    then returns cm
    else elim (lookup peer cm.connections) [
      | none ↦ returns cm
      | some d ↦
          if eqb d c
          then (close_wrapper c cm.wrappers >>= λ wrappers. returns (without peer wrappers cm))
          else returns cm
    ]

abbrev pub open_peers : List ConnWrapper → GoMap String ℕ → List String
open_peers wrappers [] = []
open_peers wrappers ((peer, c) ∷ rest) =
    if is_closed c wrappers then open_peers wrappers rest else peer ∷ open_peers wrappers rest

unfoldable pub list_connections : ConnectionManager → List String
list_connections cm = open_peers cm.wrappers cm.connections

unfoldable pub get_connection_count : ConnectionManager → ℕ
get_connection_count cm = length (open_peers cm.wrappers cm.connections)

-- What cleanupProcessor does with a task.
unfoldable pub run_task : CleanupTask → ConnectionManager → ConnectionManager
run_task (connection_task id) cm = record cm { connections = remove id cm.connections }
run_task (listener_task id) cm = record cm { listeners = remove id cm.listeners }
