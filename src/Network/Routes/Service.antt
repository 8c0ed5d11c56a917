-- ===== src/Network/Routes/Service.antt =====
-- The methods of RouteRedundancyService: internal/network/route_redundancy.go.
use t_chat.Network.Sorting.{Sorter}
use t_chat.Base.{
  write_at_index, ℕ, suc, Bool, true, false, Option, none, some, List, [], ◌∷◌, ◌++◌, map, String,
  string_comparable, ltb, if◌then◌else◌, length, get_elem?, keep, GoMap, lookup, store, modify,
}
use t_chat.Network.Routes.{
  Float64, RouteInfo, MultiPathRoute, RouteService, Peer, with_paths, route_score, is_active_at,
  path_best_route, path_next_route,
}

module _ {F : Float64} where
  unfoldable pub new_route_service : RouteService F
  new_route_service = record {
    heap = [];
    multi_path_routes = [];
    route_metrics = [];
    max_backup_paths = 3;
    is_running = false;
  }

  -- The object of a route that has just been found; its reliability is 0.9 or 0.8.
  unfoldable pub new_route : ℕ → ℕ → String → RouteInfo F
  new_route now tenths peer_id = record {
    peer_id = peer_id;
    latency = 100000000;
    reliability = F.literal tenths 10;
    bandwidth = 1048576;
    hop_count = 1;
    last_used = 0;
    last_tested = now;
    failure_count = 0;
    success_count = 0;
    is_active = true;
  }

  -- A new object, and a new path with it as primary path.
  unfoldable pub put_route : ℕ → ℕ → String → RouteService F → RouteService F
  unfolding new_route
  put_route now tenths peer_id s = record s {
    heap = s.heap ++ (new_route now tenths peer_id ∷ []);
    route_metrics = store peer_id (length s.heap) s.route_metrics;
    multi_path_routes =
        store peer_id
          (record {
            destination = peer_id;
            primary_path = some (length s.heap);
            backup_paths = [];
            last_update = now;
            load_balance = false;
            round_robin = 0;
          })
          s.multi_path_routes;
  }

  unfoldable pub add_route : ℕ → String → RouteService F → RouteService F
  unfolding put_route
  add_route now peer_id s = elim (lookup peer_id s.route_metrics) [
    | some _ ↦ s
    | none ↦ put_route now 8 peer_id s
  ]

  unfoldable pub initialize_peers : ℕ → List Peer → RouteService F → RouteService F
  unfolding put_route
  initialize_peers now [] s = s
  initialize_peers now (p ∷ ps) s =
      initialize_peers now ps (elim p.id [ none ↦ s | some peer_id ↦ put_route now 9 peer_id s ])

  -- `initializeRoutes`, where the lock is held or free: `none` if it waits for a lock that its own
  -- goroutine holds. Without a list of peers it does not lock.
  unfoldable pub initialize_routes :
      Bool → ℕ → Option (List Peer) → RouteService F → Option (RouteService F)
  unfolding initialize_peers
  initialize_routes held now none s = some s
  initialize_routes true now (some peers) s = none
  initialize_routes false now (some peers) s = some (initialize_peers now peers s)

  -- `Start`, with whether it returns an error.
  unfoldable pub start_routes :
      ℕ → Option (List Peer) → RouteService F → Option (RouteService F × Bool)
  unfolding initialize_routes
  start_routes now peers s =
      if s.is_running then some (s, true) else elim (initialize_routes true now peers s) [
        | none ↦ none
        | some s' ↦ some (record s' { is_running = true }, false)
      ]

  unfoldable pub stop_routes : RouteService F → RouteService F
  stop_routes s =
      if s.is_running
      then record s { multi_path_routes = []; route_metrics = []; is_running = false }
      else s

  -- The order in which `updateMultiPathRoute` sorts.
  abbrev pub is_above : ℕ → Option (RouteInfo F) → Option (RouteInfo F) → Bool
  is_above now none t = false
  is_above now (some r) none = false
  is_above now (some r) (some t) = F.less (route_score now t) (route_score now r)

  abbrev pub scores_higher : ℕ → List (RouteInfo F) → ℕ → ℕ → Bool
  scores_higher now heap i j = is_above now (get_elem? heap i) (get_elem? heap j)

  -- All active routes of the service, the best first.
  unfoldable pub ranked_routes : Sorter → ℕ → RouteService F → List ℕ
  ranked_routes sorter now s =
      sorter.sort_slice (scores_higher now s.heap)
        (keep (is_active_at s.heap) (map (λ kv. kv.1) s.route_metrics))

  unfoldable pub update_multi_path_route : Sorter → ℕ → String → RouteService F → RouteService F
  unfolding with_paths ranked_routes
  update_multi_path_route sorter now destination s = record s {
    multi_path_routes =
        modify destination (with_paths now s.max_backup_paths (ranked_routes sorter now s))
          s.multi_path_routes;
  }

  unfoldable pub mark_route_inactive : Sorter → ℕ → String → RouteService F → RouteService F
  unfolding update_multi_path_route
  mark_route_inactive sorter now peer_id s =
      update_multi_path_route sorter now peer_id (elim (lookup peer_id s.route_metrics) [
        | none ↦ s
        | some i ↦ record s {
          heap =
              write_at_index i
                (λ r. record r { is_active = false; failure_count = suc r.failure_count }) s.heap;
        }
      ])

  unfoldable pub reevaluate_each :
      Sorter → ℕ → GoMap String MultiPathRoute → RouteService F → RouteService F
  unfolding update_multi_path_route
  reevaluate_each sorter now [] s = s
  reevaluate_each sorter now ((destination, m) ∷ rest) s =
      reevaluate_each sorter now rest (update_multi_path_route sorter now destination s)

  unfoldable pub reevaluate_routes : Sorter → ℕ → RouteService F → RouteService F
  unfolding reevaluate_each
  reevaluate_routes sorter now s = reevaluate_each sorter now s.multi_path_routes s

  -- `testRoute` on the object at an address, with the result of the ping and its latency.
  unfoldable pub tested : ℕ → Bool → ℕ → RouteInfo F → RouteInfo F
  tested now true latency r = record r {
    success_count = suc r.success_count;
    is_active = true;
    latency = latency;
    last_tested = now;
    failure_count = 0;
    reliability =
        if F.less r.reliability (F.literal 99 100)
        then F.min_float (F.literal 99 100) (F.mul r.reliability (F.literal 101 100))
        else r.reliability;
  }
  tested now false latency r = record r {
    failure_count = suc r.failure_count;
    is_active = false;
    reliability =
        if ltb 3 (suc r.failure_count) then F.mul r.reliability (F.literal 9 10) else r.reliability;
  }

  unfoldable pub test_route : Sorter → ℕ → Bool → ℕ → String → ℕ → RouteService F → RouteService F
  unfolding update_multi_path_route tested
  test_route sorter now ok latency peer_id i s =
      update_multi_path_route sorter now peer_id
        (record s { heap = write_at_index i (tested now ok latency) s.heap })

  -- What `updateRouteMetrics` writes for a peer that it knows.
  abbrev pub seen : Peer → RouteInfo F → RouteInfo F
  seen p r = record r {
    is_active = true;
    bandwidth = elim p.bandwidth [ none ↦ r.bandwidth | some b ↦ b ];
    hop_count = elim p.hop_count [ none ↦ r.hop_count | some h ↦ h ];
  }

  unfoldable pub refresh_peer : ℕ → Peer → String → RouteService F → RouteService F
  unfolding put_route
  refresh_peer now p peer_id s = elim (lookup peer_id s.route_metrics) [
    | some i ↦ record s { heap = write_at_index i (seen p) s.heap }
    | none ↦ put_route now 8 peer_id s
  ]

  unfoldable pub refresh_peers : ℕ → List Peer → RouteService F → RouteService F
  unfolding refresh_peer
  refresh_peers now [] s = s
  refresh_peers now (p ∷ ps) s =
      refresh_peers now ps (elim p.id [ none ↦ s | some peer_id ↦ refresh_peer now p peer_id s ])

  -- The loop that marks the routes of the map as inactive.
  unfoldable pub deactivate : GoMap String ℕ → List (RouteInfo F) → List (RouteInfo F)
  deactivate [] heap = heap
  deactivate ((peer_id, i) ∷ rest) heap =
      deactivate rest (write_at_index i (λ r. record r { is_active = false }) heap)

  unfoldable pub update_route_metrics : ℕ → Option (List Peer) → RouteService F → RouteService F
  unfolding refresh_peers deactivate
  update_route_metrics now none s = s
  update_route_metrics now (some peers) s =
      refresh_peers now peers (record s { heap = deactivate s.route_metrics s.heap })

  unfoldable pub get_best_route : String → RouteService F → Option ℕ
  unfolding path_best_route
  get_best_route destination s = elim (lookup destination s.multi_path_routes) [
    | none ↦ none
    | some m ↦ path_best_route s.heap m
  ]

  unfoldable pub get_next_route : String → RouteService F → Option ℕ × RouteService F
  unfolding path_next_route
  get_next_route destination s = elim (lookup destination s.multi_path_routes) [
    | none ↦ (none, s)
    | some m ↦
        let (route, m') = path_next_route s.heap m in
        (route, record s { multi_path_routes = store destination m' s.multi_path_routes })
  ]

  unfoldable pub set_load_balancing : Bool → String → RouteService F → RouteService F
  set_load_balancing on destination s = record s {
    multi_path_routes =
        modify destination (λ m. record m { load_balance = on }) s.multi_path_routes;
  }
