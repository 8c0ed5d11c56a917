-- ===== src/Network/Routes/Reachable.antt =====
-- Every sequence of calls of internal/network/route_redundancy.go, in any order: what holds of the
-- table in each state that they lead to.
use t_chat.Network.Sorting.{Sorter, SorterLaws}
use t_chat.Base.{
  ℕ, suc, ◌≡◌, ◌⊎◌, refl, subst, inl, inr, Bool, true, false, Option, none, some, List, [], ◌∷◌,
  String, string_comparable, if◌then◌else◌, arith, GoMap, lookup, Values-modify, Values-store,
  Values-lookup, Option-cases, Values, All-map, length, ◌≤◌,
}
use t_chat.Network.Routes.{Float64, RouteInfo, MultiPathRoute, RouteService, Peer, path_next_route}
use t_chat.Network.Routes.Service.{
  new_route_service, add_route, start_routes, initialize_routes, stop_routes, mark_route_inactive,
  reevaluate_each, reevaluate_routes, tested, test_route, seen, refresh_peer, refresh_peers,
  deactivate, update_route_metrics, get_next_route, set_load_balancing,
}
use t_chat.Network.Routes.Invariant.{
  IsFiled, IsPath, IsSound, write-IsSound, put_route-IsSound, add_route-IsSound, update-IsSound,
}

-- A call of a method, with the time, the network information and the result of a ping as they come.
pub data Step {F : Float64} (sorter : Sorter) : RouteService F → RouteService F → Type 0 where
  start :
      {s s' : RouteService F} (now : ℕ) (peers : Option (List Peer)) (failed : Bool)
      → start_routes now peers s ≡ some (s', failed)
      → Step sorter s s'
  stop : {s : RouteService F} → Step sorter s (stop_routes s)
  add : {s : RouteService F} (now : ℕ) (k : String) → Step sorter s (add_route now k s)
  mark :
      {s : RouteService F} (now : ℕ) (k : String)
      → Step sorter s (mark_route_inactive sorter now k s)
  reevaluate : {s : RouteService F} (now : ℕ) → Step sorter s (reevaluate_routes sorter now s)
  ping :
      {s : RouteService F} (now : ℕ) (ok : Bool) (latency : ℕ) (k : String) (i : ℕ)
      → Step sorter s (test_route sorter now ok latency k i s)
  refresh :
      {s : RouteService F} (now : ℕ) (peers : Option (List Peer))
      → Step sorter s (update_route_metrics now peers s)
  next : {s : RouteService F} (k : String) → Step sorter s (get_next_route k s).1
  balance :
      {s : RouteService F} (on : Bool) (k : String) → Step sorter s (set_load_balancing on k s)

pub data Reachable {F : Float64} (sorter : Sorter) : RouteService F → Type 0 where
  initially : Reachable sorter new_route_service
  after : {s s' : RouteService F} → Reachable sorter s → Step sorter s s' → Reachable sorter s'

module _ {F : Float64} where
  new-IsSound : IsSound (new_route_service {F = F})
  unfolding new_route_service
  new-IsSound = record { filed = tt; paths = tt }

  stop-IsSound : (s : RouteService F) → IsSound s → IsSound (stop_routes s)
  unfolding stop_routes
  stop-IsSound s sound =
      elim s.is_running
        as (λ b. IsSound (
          if b
          then record s { multi_path_routes = []; route_metrics = []; is_running = false }
          else s)) [ true ↦ record { filed = tt; paths = tt } | false ↦ sound ]

  -- Where `Start` returns, it leaves the routes alone.
  start_routes-cases :
      (now : ℕ) (peers : Option (List Peer)) (failed : Bool) (s s' : RouteService F)
      → start_routes now peers s ≡ some (s', failed)
      → (s ≡ s') ⊎ (record s { is_running = true } ≡ s')
  unfolding start_routes initialize_routes
  start_routes-cases now none failed s s' e = ground arith
  start_routes-cases now (some peers) failed s s' e = ground arith

  start-IsSound :
      (now : ℕ) (peers : Option (List Peer)) (failed : Bool) (s s' : RouteService F)
      → start_routes now peers s ≡ some (s', failed)
      → IsSound s
      → IsSound s'
  start-IsSound now peers failed s s' e sound = elim (start_routes-cases now peers failed s s' e) [
    | inl same ↦ subst IsSound same sound
    | inr on ↦ subst IsSound on (record { filed = sound.filed; paths = sound.paths })
  ]

  mark-IsSound :
      (sorter : Sorter) (now : ℕ) (k : String) (s : RouteService F)
      → SorterLaws sorter
      → IsSound s
      → IsSound (mark_route_inactive sorter now k s)
  unfolding mark_route_inactive
  mark-IsSound sorter now k s laws sound = elim (Option-cases (lookup k s.route_metrics)) [
    | inl new ↦ rw (new, mark_route_inactive) (update-IsSound sorter now k s laws sound)
    | inr (i, known) ↦
        rw (known, mark_route_inactive)
          (update-IsSound sorter now k _ laws (
            write-IsSound i
              (λ r. record r { is_active = false; failure_count = suc r.failure_count }) s
              (λ r. refl) sound))
  ]

  reevaluate_each-IsSound :
      (sorter : Sorter) (now : ℕ) (m : GoMap String MultiPathRoute) (s : RouteService F)
      → SorterLaws sorter
      → IsSound s
      → IsSound (reevaluate_each sorter now m s)
  unfolding reevaluate_each
  reevaluate_each-IsSound sorter now [] s laws sound = sound
  reevaluate_each-IsSound sorter now ((d, m) ∷ rest) s laws sound =
      reevaluate_each-IsSound sorter now rest _ laws (update-IsSound sorter now d s laws sound)

  test-IsSound :
      (sorter : Sorter) (now : ℕ) (ok : Bool) (latency : ℕ) (k : String) (i : ℕ)
      (s : RouteService F)
      → SorterLaws sorter
      → IsSound s
      → IsSound (test_route sorter now ok latency k i s)
  unfolding test_route tested
  test-IsSound sorter now ok latency k i s laws sound =
      update-IsSound sorter now k _ laws (write-IsSound i (tested now ok latency) s (kept ok) sound)
    where
      kept : (b : Bool) (r : RouteInfo F) → (tested now b latency r).peer_id ≡ r.peer_id
      kept true r = refl
      kept false r = refl

  refresh_peer-IsSound :
      (now : ℕ) (p : Peer) (k : String) (s : RouteService F)
      → IsSound s
      → IsSound (refresh_peer now p k s)
  unfolding refresh_peer
  refresh_peer-IsSound now p k s sound = elim (Option-cases (lookup k s.route_metrics)) [
    | inl new ↦ rw (new, refresh_peer) (put_route-IsSound now 8 k s sound)
    | inr (i, known) ↦ rw (known, refresh_peer) (write-IsSound i (seen p) s (λ r. refl) sound)
  ]

  refresh_peers-IsSound :
      (now : ℕ) (ps : List Peer) (s : RouteService F) → IsSound s → IsSound (refresh_peers now ps s)
  unfolding refresh_peers
  refresh_peers-IsSound now [] s sound = sound
  refresh_peers-IsSound now (p ∷ ps) s sound =
      refresh_peers-IsSound now ps _
        (elim p.id
          as (λ o. IsSound {F = F} (elim o [ none ↦ s | some k ↦ refresh_peer now p k s ])) [
            | none ↦ sound
            | some k ↦ refresh_peer-IsSound now p k s sound
          ])

  deactivate-IsSound :
      (m : GoMap String ℕ) (s : RouteService F)
      → IsSound s
      → IsSound (record s { heap = deactivate m s.heap })
  unfolding deactivate
  deactivate-IsSound [] s sound = record { filed = sound.filed; paths = sound.paths }
  deactivate-IsSound ((k, i) ∷ m) s sound =
      deactivate-IsSound m _
        (write-IsSound i (λ r. record r { is_active = false }) s (λ r. refl) sound)

  metrics-IsSound :
      (now : ℕ) (peers : Option (List Peer)) (s : RouteService F)
      → IsSound s
      → IsSound (update_route_metrics now peers s)
  unfolding update_route_metrics
  metrics-IsSound now none s sound = sound
  metrics-IsSound now (some peers) s sound =
      refresh_peers-IsSound now peers _ (deactivate-IsSound s.route_metrics s sound)

  -- The next route leaves the paths as they are.
  next_keeps :
      (heap : List (RouteInfo F)) (m : MultiPathRoute)
      → ((path_next_route heap m).1.primary_path ≡ m.primary_path)
        × ((path_next_route heap m).1.backup_paths ≡ m.backup_paths)
  unfolding path_next_route
  next_keeps heap m = ground arith

  IsPath-next :
      (n limit : ℕ) (heap : List (RouteInfo F)) (m : MultiPathRoute)
      → IsPath n limit m
      → IsPath n limit (path_next_route heap m).1
  IsPath-next n limit heap m p = let (same, others) = next_keeps heap m in rw (same, others) p

  next-IsSound : (k : String) (s : RouteService F) → IsSound s → IsSound (get_next_route k s).1
  unfolding get_next_route
  next-IsSound k s sound = elim (Option-cases (lookup k s.multi_path_routes)) [
    | inl new ↦ rw (new, get_next_route) sound
    | inr (m, known) ↦
        rw (known, get_next_route)
          (record {
            filed = sound.filed;
            paths =
                Values-store _ k _ s.multi_path_routes
                  (IsPath-next _ _ s.heap m
                    (Values-lookup _ k s.multi_path_routes sound.paths known))
                  sound.paths;
          })
  ]

  balance-IsSound :
      (on : Bool) (k : String) (s : RouteService F)
      → IsSound s
      → IsSound (set_load_balancing on k s)
  unfolding set_load_balancing
  balance-IsSound on k s sound = record {
    filed = sound.filed;
    paths = Values-modify _ k _ s.multi_path_routes (λ m p. p) sound.paths;
  }

  Step-IsSound :
      (sorter : Sorter) (s s' : RouteService F)
      → SorterLaws sorter
      → Step sorter s s'
      → IsSound s
      → IsSound s'
  unfolding reevaluate_routes
  Step-IsSound sorter s s' laws (start now peers failed e) sound =
      start-IsSound now peers failed s s' e sound
  Step-IsSound sorter s s' laws stop sound = stop-IsSound s sound
  Step-IsSound sorter s s' laws (add now k) sound = add_route-IsSound now k s sound
  Step-IsSound sorter s s' laws (mark now k) sound = mark-IsSound sorter now k s laws sound
  Step-IsSound sorter s s' laws (reevaluate now) sound =
      reevaluate_each-IsSound sorter now s.multi_path_routes s laws sound
  Step-IsSound sorter s s' laws (ping now ok latency k i) sound =
      test-IsSound sorter now ok latency k i s laws sound
  Step-IsSound sorter s s' laws (refresh now peers) sound = metrics-IsSound now peers s sound
  Step-IsSound sorter s s' laws (next k) sound = next-IsSound k s sound
  Step-IsSound sorter s s' laws (balance on k) sound = balance-IsSound on k s sound

Reachable-IsSound :
    {F : Float64} (sorter : Sorter) {s : RouteService F}
    → SorterLaws sorter
    → Reachable sorter s
    → IsSound s
Reachable-IsSound sorter laws initially = new-IsSound
Reachable-IsSound sorter laws (after {s = s} {s' = s'} r step) =
    Step-IsSound sorter s s' laws step (Reachable-IsSound sorter laws r)

few_backups :
    (n limit : ℕ) (m : GoMap String MultiPathRoute)
    → Values (IsPath n limit) m
    → Values (λ p. length p.backup_paths ≤ limit) m
few_backups n limit m h = All-map _ _ m (λ kv p. p.2) h

-- By the laws of sort.Slice, in every state that calls of the methods lead to, each route is filed
-- under the peer that it leads to, and no path has more backup paths than the service allows.
pub Reachable-IsFiled :
    {F : Float64} (sorter : Sorter) {s : RouteService F}
    → SorterLaws sorter
    → Reachable sorter s
    → IsFiled s.heap s.route_metrics
      × Values (λ p. length p.backup_paths ≤ s.max_backup_paths) s.multi_path_routes
Reachable-IsFiled sorter {s} laws r =
    let sound = Reachable-IsSound sorter laws r in
    (sound.filed, few_backups (length s.heap) s.max_backup_paths s.multi_path_routes sound.paths)
