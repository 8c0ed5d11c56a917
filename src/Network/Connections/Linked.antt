-- ===== src/Network/Connections/Linked.antt =====
-- What CreateConnection returns, GetConnection finds: internal/network/connection_manager.go.
use t_chat.Base.{
  ℕ, ◌≡◌, refl, ap, ◌∙◌, Bool, some, List, [], ◌∷◌, ◌++◌, string_comparable, lookup, length,
  field_at, All-lookup, Bool-cases, Option-cases, inl, inr, lookup-store, eq_self,
}
use t_chat.Network.Outcome.{returns, ◌>>=◌, bind-returns}
use t_chat.Network.Connections.{
  ConnWrapper, Attempt, ConnectionManager, connected, refused, dial_failed, new_wrapper, is_closed,
  close_wrapper, connect, create_locked, without, is_connection_healthy, get_connection, dial_loop,
}
use t_chat.Network.Connections.Steps.{Steps}
use t_chat.Network.Connections.Tracked.{
  IsFiled, returns_lem, get_connection-some, get_connection_open,
}
use t_chat.Network.Connections.Invariant.{Steps-IsWellFormed, create_locked-IsWellFormed}

closed_at_end :
    (ws : List ConnWrapper) (w : ConnWrapper) → is_closed (length ws) (ws ++ (w ∷ [])) ≡ w.closed
closed_at_end [] w = refl
closed_at_end (x ∷ ws) w = closed_at_end ws w

-- A new connection is filed under the peer.
get_connection-connect :
    (now : ℕ) (dials : ℕ → Bool) (call : Attempt) (cm cm' : ConnectionManager) (c : ℕ)
    → connect now dials call cm ≡ (cm', connected c)
    → (get_connection call.peer cm').1 ≡ some c
unfolding connect
get_connection-connect now dials call cm cm' c e = elim (Bool-cases (dial_loop dials 3 0)) [
  | inr failed ↦
      absurd (
        let f : refused dial_failed ≡ connected c = ap (λ r. r.1) (rw (failed, connect) at e) in cc)
  | inl dialed ↦
      let f = rw (dialed, connect) at e in
      let last : connected (length cm.wrappers) ≡ connected c = ap (λ r. r.1) f in
      let same : length cm.wrappers ≡ c = cc in
      rw (← same) (
        rw (← ap (λ r. r.0) f) (
          get_connection_open call.peer _ (length cm.wrappers)
            (lookup-store call.peer call.peer (length cm.wrappers) cm.connections
              ∙ rw (eq_self call.peer) refl)
            (closed_at_end cm.wrappers (new_wrapper call.peer))))
]

get_connection-created :
    (now : ℕ) (dials writes : ℕ → Bool) (call : Attempt) (cm cm' : ConnectionManager) (c : ℕ)
    → create_locked now dials writes call cm ≡ returns (cm', connected c)
    → (get_connection call.peer cm').1 ≡ some c
unfolding create_locked
get_connection-created now dials writes call cm cm' c e =
    elim (Option-cases (lookup call.peer cm.connections)) [
      | inl missing ↦
          get_connection-connect now dials call cm cm' c
            (returns_lem _ _ (rw (missing, create_locked) at e))
      | inr (d, found) ↦ elim (Bool-cases (is_closed d cm.wrappers)) [
        | inl shut ↦
            get_connection-connect now dials call (without call.peer cm.wrappers cm) cm' c
              (returns_lem _ _ (rw (found, shut, create_locked) at e))
        | inr alive ↦ elim (Bool-cases (is_connection_healthy writes d cm.wrappers)) [
          | inl healthy ↦
              let f = returns_lem _ _ (rw (found, alive, healthy, create_locked) at e) in
              let last : connected d ≡ connected c = ap (λ r. r.1) f in
              let same : d ≡ c = cc in
              rw (← same) (rw (← ap (λ r. r.0) f) (get_connection_open call.peer cm d found alive))
          | inr sick ↦
              let f : (close_wrapper d cm.wrappers >>= λ ws.
              returns (connect now dials call (without call.peer ws cm)))
                  ≡ returns (cm', connected c) =
                rw (found, alive, sick, create_locked) at e in
              let (ws, shut, g) = bind-returns (close_wrapper d cm.wrappers) _ f in
              get_connection-connect now dials call (without call.peer ws cm) cm' c
                (returns_lem _ _ g)
        ]
      ]
    ]

-- Whatever steps have been taken, also by holders of connections who close them: when
-- CreateConnection returns a connection, then GetConnection right afterwards returns the same one for
-- the peer, and it is a connection with this peer.
pub get_connection-create_locked :
    (now : ℕ) (dials writes : ℕ → Bool) (call : Attempt) {cm cm' : ConnectionManager} {c : ℕ}
    → Steps cm
    → create_locked now dials writes call cm ≡ returns (cm', connected c)
    → ((get_connection call.peer cm').1 ≡ some c)
      × (field_at (λ w. w.peer_id) cm'.wrappers c ≡ some call.peer)
get_connection-create_locked now dials writes call {cm} {cm'} {c} steps e =
    let got = get_connection-created now dials writes call cm cm' c e in
    let v =
      create_locked-IsWellFormed now dials writes call cm cm' (connected c)
        (Steps-IsWellFormed steps) e in
    let (found, alive) = get_connection-some call.peer cm' got in
    (got, All-lookup (IsFiled cm'.wrappers) call.peer cm'.connections v.filed found)
