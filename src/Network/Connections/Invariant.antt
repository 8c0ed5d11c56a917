-- ===== src/Network/Connections/Invariant.antt =====
-- Every step keeps a manager well formed: internal/network/connection_manager.go.
use t_chat.Base.{
  ℕ, ◌≤◌, ◌≡◌, ap, Bool, false, some, List, [], ◌∷◌, String, string_comparable, nat_comparable,
  lookup, length, field_at, All-remove, All-lookup, arith, Bool-cases, Option-cases, inl, inr,
  length-append, subst,
}
use t_chat.Network.Outcome.{returns, ◌>>=◌, bind-returns}
use t_chat.Network.Connections.{
  ConnWrapper, CleanupTask, connection_task, listener_task, Attempt, ConnectionManager, Created,
  connected, new_connection_manager, begin_create, is_closed, close_wrapper, connect, create_locked,
  without, is_connection_healthy, get_connection, run_task, queue_capacity, limiter_capacity,
}
use t_chat.Network.Connections.Listeners.{close_all, cleanup_manager, close_all_listeners}
use t_chat.Network.Connections.Steps.{Step, Steps}
use t_chat.Network.Connections.Tracked.{
  IsFiled, IsWellFormed, Keeps, kept, close_wrapper-Keeps, begin_read-Keeps, end_read-Keeps,
  connect-IsWellFormed, without-IsWellFormed, returns_lem, get_connection-some,
}
use t_chat.Network.Connections.Closing.{
  close_connection-IsWellFormed, monitor_tick-IsWellFormed, Shares-IsWellFormed,
  create_listener-Shares, get_listener-Shares, close_listener-Shares,
}

begin_create-IsWellFormed :
    (now : ℕ) (peer address : String) (cm : ConnectionManager)
    → IsWellFormed cm
    → IsWellFormed (begin_create now peer address cm).0
unfolding begin_create
begin_create-IsWellFormed now peer address cm v =
    ground
      (arith, v.filed, length-append cm.limiter (record { peer = peer; address = address } ∷ []))

pub create_locked-IsWellFormed :
    (now : ℕ) (dials writes : ℕ → Bool) (call : Attempt) (cm cm' : ConnectionManager)
    (result : Created)
    → IsWellFormed cm
    → create_locked now dials writes call cm ≡ returns (cm', result)
    → IsWellFormed cm'
unfolding create_locked
create_locked-IsWellFormed now dials writes call cm cm' result v e =
    elim (Option-cases (lookup call.peer cm.connections)) [
      | inl missing ↦
          let f : returns (connect now dials call cm) ≡ returns (cm', result) =
            rw (missing, create_locked) at e in
          let g = returns_lem _ _ f in
          subst (λ r. IsWellFormed r.0) g (connect-IsWellFormed now dials call cm v)
      | inr (c, found) ↦ elim (Bool-cases (is_closed c cm.wrappers)) [
        | inl shut ↦
            let f : returns (connect now dials call (without call.peer cm.wrappers cm))
                ≡ returns (cm', result) =
              rw (found, shut, create_locked) at e in
            subst (λ r. IsWellFormed r.0) (returns_lem _ _ f)
              (connect-IsWellFormed now dials call (without call.peer cm.wrappers cm)
                (without-IsWellFormed call.peer cm.wrappers cm (λ i p h. h) v))
        | inr alive ↦ elim (Bool-cases (is_connection_healthy writes c cm.wrappers)) [
          | inl healthy ↦
              let f : returns (cm, connected c) ≡ returns (cm', result) =
                rw (found, alive, healthy, create_locked) at e in
              subst (λ r. IsWellFormed r.0) (returns_lem _ _ f) v
          | inr sick ↦
              let f : (close_wrapper c cm.wrappers >>= λ ws.
              returns (connect now dials call (without call.peer ws cm)))
                  ≡ returns (cm', result) =
                rw (found, alive, sick, create_locked) at e in
              let (ws, shut, g) = bind-returns (close_wrapper c cm.wrappers) _ f in
              subst (λ r. IsWellFormed r.0) (returns_lem _ _ g)
                (connect-IsWellFormed now dials call (without call.peer ws cm) (
                  without-IsWellFormed call.peer ws cm (close_wrapper-Keeps c cm.wrappers ws shut)
                    v))
        ]
      ]
    ]

get_connection-IsWellFormed :
    (peer : String) (cm : ConnectionManager)
    → IsWellFormed cm
    → IsWellFormed (get_connection peer cm).0
unfolding get_connection
get_connection-IsWellFormed peer cm v =
    let fewer = All-remove (IsFiled cm.wrappers) peer cm.connections v.filed in
    ground (arith, v.filed, fewer, length-append cm.cleanup_queue (connection_task peer ∷ []))

cleanup_manager-IsWellFormed :
    (cm cm' : ConnectionManager)
    → IsWellFormed cm
    → cleanup_manager cm ≡ returns cm'
    → IsWellFormed cm'
unfolding cleanup_manager
cleanup_manager-IsWellFormed cm cm' v e =
    let (ws, shut, f) = bind-returns (close_all cm.connections cm.wrappers) _ e in
    let (ls, shut_listeners, g) =
      bind-returns (close_all_listeners cm.listeners cm.listener_wrappers) _ f in
    subst IsWellFormed (returns_lem _ _ g)
      (record { filed = tt; queue = v.queue; tokens = v.tokens })

run_task-IsWellFormed :
    (task : CleanupTask) (rest : List CleanupTask) (cm : ConnectionManager)
    → cm.cleanup_queue ≡ task ∷ rest
    → IsWellFormed cm
    → IsWellFormed (record (run_task task cm) { cleanup_queue = rest })
unfolding run_task
run_task-IsWellFormed (connection_task id) rest cm e v = record {
  filed = All-remove (IsFiled cm.wrappers) id cm.connections v.filed;
  queue = omega (arith, ap length e, v.queue);
  tokens = v.tokens;
}
run_task-IsWellFormed (listener_task id) rest cm e v = record {
  filed = v.filed;
  queue = omega (arith, ap length e, v.queue);
  tokens = v.tokens;
}

with_wrappers :
    (ws : List ConnWrapper) (cm : ConnectionManager)
    → Keeps cm.wrappers ws
    → IsWellFormed cm
    → IsWellFormed (record cm { wrappers = ws })
with_wrappers ws cm keeps v = record {
  filed = kept cm.wrappers ws cm.connections keeps v.filed;
  queue = v.queue;
  tokens = v.tokens;
}

Step-IsWellFormed : {cm cm' : ConnectionManager} → Step cm cm' → IsWellFormed cm → IsWellFormed cm'
Step-IsWellFormed (Step.begins now peer address {cm}) v =
    begin_create-IsWellFormed now peer address cm v
Step-IsWellFormed (Step.finishes now dials writes left call right result {cm} {cm'} waiting e) v =
    let done = create_locked-IsWellFormed now dials writes call cm cm' result v e in
    record {
      filed = done.filed;
      queue = done.queue;
      tokens = omega (
        arith,
        v.tokens,
        ap length waiting,
        length-append left (call ∷ right),
        length-append left right,
      );
    }
Step-IsWellFormed (Step.gets peer {cm}) v = get_connection-IsWellFormed peer cm v
Step-IsWellFormed (Step.closes peer {cm} {cm'} e) v = close_connection-IsWellFormed peer cm cm' v e
Step-IsWellFormed (Step.ticks writes c peer {cm} {cm'} e) v =
    monitor_tick-IsWellFormed writes c peer cm cm' v e
Step-IsWellFormed (Step.reads c ws {cm} e) v =
    with_wrappers ws cm (begin_read-Keeps c cm.wrappers ws e) v
Step-IsWellFormed (Step.has_read c ws {cm} e) v =
    with_wrappers ws cm (end_read-Keeps c cm.wrappers ws e) v
Step-IsWellFormed (Step.holder_closes c ws {cm} e) v =
    with_wrappers ws cm (close_wrapper-Keeps c cm.wrappers ws e) v
Step-IsWellFormed (Step.listens works address {cm}) v =
    Shares-IsWellFormed cm _ (create_listener-Shares works address cm) v
Step-IsWellFormed (Step.gets_listener address {cm}) v =
    Shares-IsWellFormed cm _ (get_listener-Shares address cm) v
Step-IsWellFormed (Step.closes_listener address {cm} {cm'} e) v =
    Shares-IsWellFormed cm cm' (close_listener-Shares address cm cm' e) v
Step-IsWellFormed (Step.cleans task rest {cm} e) v = run_task-IsWellFormed task rest cm e v
Step-IsWellFormed (Step.ends {cm} {cm'} e) v = cleanup_manager-IsWellFormed cm cm' v e

pub Steps-IsWellFormed : {cm : ConnectionManager} → Steps cm → IsWellFormed cm
unfolding new_connection_manager
Steps-IsWellFormed Steps.none_yet = record { filed = tt; queue = omega arith; tokens = omega arith }
Steps-IsWellFormed (Steps.further steps step) = Step-IsWellFormed step (Steps-IsWellFormed steps)

-- Whatever steps have been taken, also by holders of connections who close them, the connection that
-- GetConnection returns for a peer is one with this peer and is not closed, and the queue and the limiter are within their capacities.
pub get_connection-Steps :
    {cm : ConnectionManager} (peer : String) {c : ℕ}
    → Steps cm
    → (get_connection peer cm).1 ≡ some c
    → (field_at (λ w. w.peer_id) cm.wrappers c ≡ some peer)
      × (is_closed c cm.wrappers ≡ false)
      × (length cm.cleanup_queue ≤ queue_capacity)
      × (length cm.limiter ≤ limiter_capacity)
get_connection-Steps {cm} peer {c} steps e =
    let v = Steps-IsWellFormed steps in
    let (found, alive) = get_connection-some peer cm e in
    (All-lookup (IsFiled cm.wrappers) peer cm.connections v.filed found, alive, v.queue, v.tokens)
