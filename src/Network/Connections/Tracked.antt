-- ===== src/Network/Connections/Tracked.antt =====
-- What holds of a manager at all times: internal/network/connection_manager.go.
use t_chat.Base.{
  ℕ, suc, ◌≤◌, ◌≡◌, refl, ◌∙◌, Bool, true, false, none, some, List, [], ◌∷◌, ◌++◌, String,
  string_comparable, nat_comparable, ltb, GoMap, lookup, length, write_at_index, field_at,
  field_at-append, field_at-write_at_index, All, All-store, All-remove, All-map, Bool-cases,
  Option-cases, inl, inr, subst,
}
use t_chat.Network.Outcome.{returns, waits, bind-returns, load_at}
use t_chat.Network.Connections.{
  ConnWrapper, Attempt, ConnectionManager, new_wrapper, is_closed, close_wrapper, connect, without,
  get_connection, begin_read, end_read, queue_capacity, limiter_capacity, dial_loop,
}
use t_chat.Network.Connections.Listeners.{close_all}

-- The connection of an entry is one with the peer that it is filed under.
abbrev pub IsFiled : List ConnWrapper → String × ℕ → Type 0
IsFiled wrappers entry = field_at (λ w. w.peer_id) wrappers entry.1 ≡ some entry.0

pub record IsWellFormed (cm : ConnectionManager) : Type 0 where
  pub filed : All (IsFiled cm.wrappers) cm.connections
  pub queue : length cm.cleanup_queue ≤ queue_capacity
  pub tokens : length cm.limiter ≤ limiter_capacity

-- The peers of the wrappers stay.
abbrev pub Keeps : List ConnWrapper → List ConnWrapper → Type 0
Keeps ws ws' =
    (i : ℕ) (peer : String)
    → field_at (λ w. w.peer_id) ws i ≡ some peer
    → field_at (λ w. w.peer_id) ws' i ≡ some peer

pub kept :
    (ws ws' : List ConnWrapper) (m : GoMap String ℕ)
    → Keeps ws ws'
    → All (IsFiled ws) m
    → All (IsFiled ws') m
kept ws ws' m keeps a = All-map (IsFiled ws) (IsFiled ws') m (λ e h. keeps e.1 e.0 h) a

write-Keeps :
    (i : ℕ) (f : ConnWrapper → ConnWrapper) (ws : List ConnWrapper)
    → ((w : ConnWrapper) → (f w).peer_id ≡ w.peer_id)
    → Keeps ws (write_at_index i f ws)
write-Keeps i f ws same j peer h = field_at-write_at_index (λ w. w.peer_id) i j f ws same ∙ h

pub returns_lem : {A : Type 0} (a b : A) → returns a ≡ returns b → a ≡ b
returns_lem a b e = cc

pub close_wrapper-Keeps :
    (c : ℕ) (ws ws' : List ConnWrapper) → close_wrapper c ws ≡ returns ws' → Keeps ws ws'
unfolding close_wrapper
close_wrapper-Keeps c ws ws' e =
    let (w, loaded, rest) = bind-returns (load_at c ws) _ e in
    elim (Bool-cases (ltb 0 w.readers)) [
      | inl busy ↦ absurd (let f : waits ≡ returns ws' = rw busy at rest in cc)
      | inr free ↦
          let f : returns (write_at_index c (λ v. record v { closed = true }) ws) ≡ returns ws' =
            rw free at rest in
          subst (Keeps ws) (returns_lem _ ws' f)
            (write-Keeps c (λ v. record v { closed = true }) ws (λ w. refl))
    ]

pub begin_read-Keeps :
    (c : ℕ) (ws ws' : List ConnWrapper) → begin_read c ws ≡ returns ws' → Keeps ws ws'
unfolding begin_read
begin_read-Keeps c ws ws' e =
    let (w, loaded, rest) = bind-returns (load_at c ws) _ e in
    elim (Bool-cases w.closed) [
      | inl shut ↦
          let f : returns ws ≡ returns ws' = rw shut at rest in
          subst (Keeps ws) (returns_lem _ ws' f) (λ i peer h. h)
      | inr open_ ↦
          let f : returns (write_at_index c (λ v. record v { readers = suc v.readers }) ws)
              ≡ returns ws' =
            rw open_ at rest in
          subst (Keeps ws) (returns_lem _ ws' f)
            (write-Keeps c (λ v. record v { readers = suc v.readers }) ws (λ w. refl))
    ]

pub end_read-Keeps :
    (c : ℕ) (ws ws' : List ConnWrapper) → end_read c ws ≡ returns ws' → Keeps ws ws'
unfolding end_read
end_read-Keeps c ws ws' e =
    let (w, loaded, rest) = bind-returns (load_at c ws) _ e in
    subst (Keeps ws) (returns_lem _ ws' rest) (write-Keeps c _ ws (λ w. refl))

pub close_all-Keeps :
    (m : GoMap String ℕ) (ws ws' : List ConnWrapper) → close_all m ws ≡ returns ws' → Keeps ws ws'
unfolding close_all
close_all-Keeps [] ws ws' e = subst (Keeps ws) (returns_lem ws ws' e) (λ i peer h. h)
close_all-Keeps ((peer, c) ∷ m) ws ws' e =
    let (ws1, first, rest) = bind-returns (close_wrapper c ws) _ e in
    λ i p h. close_all-Keeps m ws1 ws' rest i p (close_wrapper-Keeps c ws ws1 first i p h)

-- The new wrapper is at the end of the store.
field_at_end :
    (ws : List ConnWrapper) (w : ConnWrapper)
    → field_at (λ w. w.peer_id) (ws ++ (w ∷ [])) (length ws) ≡ some w.peer_id
field_at_end [] w = refl
field_at_end (x ∷ ws) w = field_at_end ws w

pub connect-IsWellFormed :
    (now : ℕ) (dials : ℕ → Bool) (call : Attempt) (cm : ConnectionManager)
    → IsWellFormed cm
    → IsWellFormed (connect now dials call cm).0
unfolding connect
connect-IsWellFormed now dials call cm v = elim (Bool-cases (dial_loop dials 3 0)) [
  | inr failed ↦
      rw (failed, connect) (record { filed = v.filed; queue = v.queue; tokens = v.tokens })
  | inl dialed ↦
      rw (dialed, connect)
        (record {
          filed =
              All-store (IsFiled ws) call.peer (length cm.wrappers) cm.connections
                (field_at_end cm.wrappers new)
                (kept cm.wrappers ws cm.connections
                  (λ i p h. field_at-append (λ w. w.peer_id) cm.wrappers new i p h) v.filed);
          queue = v.queue;
          tokens = v.tokens;
        })
]
  where
    new : ConnWrapper
    new = new_wrapper call.peer

    ws : List ConnWrapper
    ws = cm.wrappers ++ (new ∷ [])

pub without-IsWellFormed :
    (peer : String) (ws : List ConnWrapper) (cm : ConnectionManager)
    → Keeps cm.wrappers ws
    → IsWellFormed cm
    → IsWellFormed (without peer ws cm)
without-IsWellFormed peer ws cm keeps v = record {
  filed =
      All-remove (IsFiled ws) peer cm.connections
        (kept cm.wrappers ws cm.connections keeps v.filed);
  queue = v.queue;
  tokens = v.tokens;
}

pub get_connection-some :
    (peer : String) (cm : ConnectionManager) {c : ℕ}
    → (get_connection peer cm).1 ≡ some c
    → (lookup peer cm.connections ≡ some c) × (is_closed c cm.wrappers ≡ false)
unfolding get_connection
get_connection-some peer cm {c} e = elim (Option-cases (lookup peer cm.connections)) [
  | inl missing ↦ absurd (let f : none ≡ some c = rw (missing, get_connection) at e in cc)
  | inr (d, found) ↦ elim (Bool-cases (is_closed d cm.wrappers)) [
    | inl shut ↦ absurd (let f : none ≡ some c = rw (found, shut, get_connection) at e in cc)
    | inr alive ↦
        let f : some d ≡ some c = rw (found, alive, get_connection) at e in
        let same : d ≡ c = cc in (rw (← same) found, rw (← same) alive)
  ]
]

pub get_connection-none :
    (peer : String) (cm : ConnectionManager)
    → lookup peer cm.connections ≡ none
    → (get_connection peer cm).1 ≡ none
unfolding get_connection
get_connection-none peer cm missing = rw (missing, get_connection) refl

pub get_connection_open :
    (peer : String) (cm : ConnectionManager) (c : ℕ)
    → lookup peer cm.connections ≡ some c
    → is_closed c cm.wrappers ≡ false
    → (get_connection peer cm).1 ≡ some c
unfolding get_connection
get_connection_open peer cm c found alive = rw (found, alive, get_connection) refl
