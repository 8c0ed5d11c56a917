-- ===== src/Network/Connections/Closing.antt =====
-- Closing connections, the monitor and the listeners keep a manager well formed: internal/network/connection_manager.go.
use t_chat.Base.{
  ℕ, ◌≤◌, ◌≡◌, refl, Bool, none, some, List, [], ◌∷◌, String, string_comparable, nat_comparable,
  eqb, lookup, remove, length, arith, Bool-cases, Option-cases, inl, inr, length-append, subst,
}
use t_chat.Network.Outcome.{returns, ◌>>=◌, bind-returns}
use t_chat.Network.Connections.{
  ListenerWrapper, listener_task, ConnectionManager, close_wrapper, without, is_connection_healthy,
  close_connection, monitor_tick, queue_capacity,
}
use t_chat.Network.Connections.Listeners.{
  create_listener, listen, get_listener, close_listener, close_listener_wrapper,
}
use t_chat.Network.Connections.Tracked.{
  IsWellFormed, close_wrapper-Keeps, without-IsWellFormed, returns_lem,
}

pub close_connection-IsWellFormed :
    (peer : String) (cm cm' : ConnectionManager)
    → IsWellFormed cm
    → close_connection peer cm ≡ returns (some cm')
    → IsWellFormed cm'
unfolding close_connection
close_connection-IsWellFormed peer cm cm' v e = elim (Option-cases (lookup peer cm.connections)) [
  | inl missing ↦ absurd (
      let f : returns none ≡ returns (some cm') = rw (missing, close_connection) at e in
      let g : none ≡ some cm' = returns_lem _ _ f in cc)
  | inr (c, found) ↦
      let f : (close_wrapper c cm.wrappers >>= λ ws. returns (some (without peer ws cm)))
          ≡ returns (some cm') =
        rw (found, close_connection) at e in
      let (ws, shut, g) = bind-returns (close_wrapper c cm.wrappers) _ f in
      let h : some (without peer ws cm) ≡ some cm' = returns_lem _ _ g in
      subst IsWellFormed (cc)
        (without-IsWellFormed peer ws cm (close_wrapper-Keeps c cm.wrappers ws shut) v)
]

pub monitor_tick-IsWellFormed :
    (writes : ℕ → Bool) (c : ℕ) (peer : String) (cm cm' : ConnectionManager)
    → IsWellFormed cm
    → monitor_tick writes c peer cm ≡ returns cm'
    → IsWellFormed cm'
unfolding monitor_tick
monitor_tick-IsWellFormed writes c peer cm cm' v e =
    elim (Bool-cases (is_connection_healthy writes c cm.wrappers)) [
      | inl healthy ↦ same (rw (healthy, monitor_tick) at e)
      | inr sick ↦ elim (Option-cases (lookup peer cm.connections)) [
        | inl missing ↦ same (rw (sick, missing, monitor_tick) at e)
        | inr (d, found) ↦ elim (Bool-cases (eqb d c)) [
          | inr other ↦ same (rw (sick, found, other, monitor_tick) at e)
          | inl this ↦
              let f : (close_wrapper c cm.wrappers >>= λ ws. returns (without peer ws cm))
                  ≡ returns cm' =
                rw (sick, found, this, monitor_tick) at e in
              let (ws, shut, g) = bind-returns (close_wrapper c cm.wrappers) _ f in
              subst IsWellFormed (returns_lem _ _ g)
                (without-IsWellFormed peer ws cm (close_wrapper-Keeps c cm.wrappers ws shut) v)
        ]
      ]
    ]
  where
    same : returns cm ≡ returns cm' → IsWellFormed cm'
    same f = subst IsWellFormed (returns_lem _ _ f) v

-- An operation on listeners leaves the connections alone.
abbrev pub Shares : ConnectionManager → ConnectionManager → Type 0
Shares cm cm' =
    (cm'.wrappers ≡ cm.wrappers)
    × (cm'.connections ≡ cm.connections)
    × (cm'.limiter ≡ cm.limiter)
    × (length cm.cleanup_queue ≤ queue_capacity → length cm'.cleanup_queue ≤ queue_capacity)

pub Shares-IsWellFormed :
    (cm cm' : ConnectionManager) → Shares cm cm' → IsWellFormed cm → IsWellFormed cm'
Shares-IsWellFormed cm cm' (ws, connections, limiter, queue) v = record {
  filed = rw (ws, connections) v.filed;
  queue = queue v.queue;
  tokens = rw limiter v.tokens;
}

pub create_listener-Shares :
    (works : Bool) (address : String) (cm : ConnectionManager)
    → Shares cm (create_listener works address cm).0
unfolding create_listener listen
create_listener-Shares works address cm = ground arith

pub get_listener-Shares :
    (address : String) (cm : ConnectionManager) → Shares cm (get_listener address cm).0
unfolding get_listener
get_listener-Shares address cm =
    ground (arith, length-append cm.cleanup_queue (listener_task address ∷ []))

pub close_listener-Shares :
    (address : String) (cm cm' : ConnectionManager)
    → close_listener address cm ≡ returns (some cm')
    → Shares cm cm'
unfolding close_listener
close_listener-Shares address cm cm' e = elim (Option-cases (lookup address cm.listeners)) [
  | inl missing ↦ absurd (
      let f : returns none ≡ returns (some cm') = rw (missing, close_listener) at e in
      let g : none ≡ some cm' = returns_lem _ _ f in cc)
  | inr (l, found) ↦
      let (ws, shut, g) =
        bind-returns (close_listener_wrapper l cm.listener_wrappers) _
          (rw (found, close_listener) at e) in
      let h : some (shut_one ws) ≡ some cm' = returns_lem _ _ g in
      subst (Shares cm) {x = shut_one ws} {y = cm'} (cc) (refl, refl, refl, λ q. q)
]
  where
    shut_one : List ListenerWrapper → ConnectionManager
    shut_one ws = record cm { listener_wrappers = ws; listeners = remove address cm.listeners }
