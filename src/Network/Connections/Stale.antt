-- ===== src/Network/Connections/Stale.antt =====
-- Connections that the manager loses, refuses or waits for: internal/network/connection_manager.go.
use t_chat.Base.{
  ℕ, ◌-◌, ◌<◌, ◌≡◌, ◌≢◌, refl, sym, ◌∙◌, Bool, true, false, none, some, List, [], ◌∷◌, ◌++◌, String,
  string_comparable, ◌==◌, ltb, GoMap, store, remove, length, get_elem?, write_at_index, field_at,
  All, Bool-cases, inl, inr, lookup-store, lookup-remove, eq_self, All-lookup,
  get_elem?-write_at_index_ne, lt→ltb,
}
use t_chat.Network.Outcome.{returns, waits, bind-returns, load_at}
use t_chat.Network.Connections.{
  ConnWrapper, connection_task, Attempt, ConnectionManager, connected, refused, dial_failed,
  too_frequent, new_wrapper, allocated, begin_create, is_closed, close_wrapper, connect,
  get_connection, run_task, connect_interval, dial_loop,
}
use t_chat.Network.Connections.Listeners.{close_all, cleanup_manager, close_all_listeners}
use t_chat.Network.Connections.Tracked.{
  IsFiled, IsWellFormed, returns_lem, get_connection-some, get_connection-none, get_connection_open,
}

close_wrapper-other :
    (i j : ℕ) (ws ws' : List ConnWrapper)
    → i ≢ j
    → close_wrapper i ws ≡ returns ws'
    → get_elem? ws' j ≡ get_elem? ws j
unfolding close_wrapper
close_wrapper-other i j ws ws' other e =
    let (w, loaded, rest) = bind-returns (load_at i ws) _ e in
    elim (Bool-cases (ltb 0 w.readers)) [
      | inl busy ↦ absurd (let f : waits ≡ returns ws' = rw busy at rest in cc)
      | inr free ↦
          let f : returns (write_at_index i (λ v. record v { closed = true }) ws) ≡ returns ws' =
            rw free at rest in
          rw (← returns_lem _ ws' f)
            (get_elem?-write_at_index_ne i j (λ v. record v { closed = true }) ws other)
    ]

close_all-other :
    (j : ℕ) (m : GoMap String ℕ) (ws ws' : List ConnWrapper)
    → All (λ (e : String × ℕ). e.1 ≢ j) m
    → close_all m ws ≡ returns ws'
    → get_elem? ws' j ≡ get_elem? ws j
unfolding close_all
close_all-other j [] ws ws' others e = rw (← returns_lem ws ws' e) refl
close_all-other j ((peer, i) ∷ m) ws ws' others e =
    let (ws1, first, rest) = bind-returns (close_wrapper i ws) _ e in
    close_all-other j m ws1 ws' others.1 rest ∙ close_wrapper-other i j ws ws1 others.0 first

-- Without the entry of a peer, no entry leads to a connection with this peer.
remove_others :
    (peer : String) (c : ℕ) (ws : List ConnWrapper) (m : GoMap String ℕ)
    → field_at (λ w. w.peer_id) ws c ≡ some peer
    → All (IsFiled ws) m
    → All (λ (e : String × ℕ). e.1 ≢ c) (remove peer m)
unfolding remove
remove_others peer c ws [] own filed = tt
remove_others peer c ws ((other, d) ∷ m) own filed = elim (Bool-cases (other == peer)) [
  | inl same ↦ rw same (remove_others peer c ws m own filed.1)
  | inr differs ↦ rw differs (
    λ e. absurd (
        let one : some peer ≡ some other = sym own ∙ (rw e at filed.0) in
        let equal : other ≡ peer = cc in
        let f : false ≡ true = sym differs ∙ (rw equal (eq_self peer)) in cc),
    remove_others peer c ws m own filed.1,
  )
]

still :
    (c : ℕ) (ws old : List ConnWrapper)
    → get_elem? ws c ≡ get_elem? old c
    → is_closed c old ≡ false
    → is_closed c ws ≡ false
still c ws old same alive = rw (same, is_closed) alive

-- When cleanupProcessor takes a task for a peer that GetConnection has queued, and the peer has an
-- open connection again meanwhile, then the table of a well-formed manager loses it: GetConnection
-- does not find it, although it is open, and when Cleanup returns it is still open.
pub run_task-IsLost :
    (peer : String) (c : ℕ) (cm : ConnectionManager)
    → IsWellFormed cm
    → (get_connection peer cm).1 ≡ some c
    → let cm' = run_task (connection_task peer) cm in
      ((get_connection peer cm').1 ≡ none)
      × (is_closed c cm'.wrappers ≡ false)
      × ((ended : ConnectionManager)
          → cleanup_manager cm' ≡ returns ended
          → is_closed c ended.wrappers ≡ false)
unfolding run_task cleanup_manager
run_task-IsLost peer c cm v e =
    let (found, alive) = get_connection-some peer cm e in
    let own = All-lookup (IsFiled cm.wrappers) peer cm.connections v.filed found in
    (
      get_connection-none peer (run_task (connection_task peer) cm)
          (rw (lookup-remove peer peer cm.connections, eq_self peer) refl),
      alive,
      λ ended f.
          let (ws, shut, g) =
            bind-returns (close_all (remove peer cm.connections) cm.wrappers) _ f in
          let (ls, shut_listeners, h) =
            bind-returns (close_all_listeners cm.listeners cm.listener_wrappers) _ g in
          let last = returns_lem _ ended h in
          let same =
            close_all-other c (remove peer cm.connections) cm.wrappers ws
              (remove_others peer c cm.wrappers cm.connections own v.filed) shut in
          rw (← last) (still c ws cm.wrappers same alive),
    )

new_is_open :
    (ws : List ConnWrapper) (w : ConnWrapper)
    → w.closed ≡ false
    → is_closed (length ws) (ws ++ (w ∷ [])) ≡ false
new_is_open [] w h = h
new_is_open (v ∷ ws) w h = new_is_open ws w h

-- For two seconds after CreateConnection has connected a peer, it refuses the same peer and address as
-- too frequent and changes nothing, although GetConnection returns the new connection.
pub begin_create-connect :
    (now later : ℕ) (dials : ℕ → Bool) (call : Attempt) (cm : ConnectionManager) (c : ℕ)
    → (call.peer == "") ≡ false
    → (call.address == "") ≡ false
    → later - now < connect_interval
    → (connect now dials call cm).1 ≡ connected c
    → let cm' = (connect now dials call cm).0 in
      (begin_create later call.peer call.address cm' ≡ (cm', some too_frequent))
      × ((get_connection call.peer cm').1 ≡ some c)
unfolding begin_create connect
begin_create-connect now later dials call cm c named addressed soon e =
    elim (Bool-cases (dial_loop dials 3 0)) [
      | inr failed ↦
          absurd (let f : refused dial_failed ≡ connected c = rw (failed, connect) at e in cc)
      | inl dialed ↦
          let f : connected (length cm.wrappers) ≡ connected c = rw (dialed, connect) at e in
          let number : length cm.wrappers ≡ c = cc in
          rw
            (
              dialed,
              connect,
              begin_create,
              named,
              addressed,
              lookup-store call.address call.address now cm.last_connect_time,
              eq_self call.address,
              lt→ltb (later - now) connect_interval soon,
            )
            (refl, rw (← number) found)
    ]
  where
    cm' : ConnectionManager
    cm' = record (allocated call.peer cm) {
      last_connect_time = store call.address now cm.last_connect_time;
    }

    found : (get_connection call.peer cm').1 ≡ some (length cm.wrappers)
    found =
        get_connection_open call.peer cm' (length cm.wrappers)
          (rw
            (
              lookup-store call.peer call.peer (length cm.wrappers) cm.connections,
              eq_self call.peer,
            )
            refl)
          (new_is_open cm.wrappers (new_wrapper call.peer) refl)
