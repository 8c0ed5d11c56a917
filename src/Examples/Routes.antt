-- ===== src/Examples/Routes.antt =====
-- Two routes of internal/network/route_redundancy.go, with numbers for floats and an insertion sort
-- for sort.Slice.
use t_chat.Examples.Sorting.{insertion_sort, insertion_sort-SorterLaws}
use t_chat.Base.{
  ℕ, ◌+◌, ◌-◌, ◌*◌, ◌/◌, ◌≡◌, min, Bool, true, false, none, some, [], ◌∷◌, String,
  string_comparable, ltb, ◌==◌, if◌then◌else◌, lookup, arith, Values, length, ◌≤◌,
}
use t_chat.Network.Routes.{Float64, RouteInfo, MultiPathRoute, RouteService}
use t_chat.Network.Routes.Service.{
  new_route_service, add_route, update_multi_path_route, update_route_metrics, reevaluate_routes,
  test_route, get_best_route,
}
use t_chat.Network.Routes.Best.{IsOrdered, IsBest, get_best_route-update_multi_path_route}
use t_chat.Network.Routes.Invariant.{IsFiled}
use t_chat.Network.Routes.Reachable.{Step, Reachable, Reachable-IsFiled}

abbrev numbers : Float64
numbers = record {
  Float = ℕ;
  less = ltb;
  literal = λ a b. a / b;
  of_int = λ a. a;
  add = λ a b. a + b;
  sub = λ a b. a - b;
  mul = λ a b. a * b;
  div = λ a b. a / b;
  min_float = min;
}

numbers-IsOrdered : IsOrdered numbers
numbers-IsOrdered = (λ a b h. ground arith, λ a b c h k. ground arith)

abbrev route : String → ℕ → Bool → RouteInfo numbers
route k bandwidth active = record {
  peer_id = k;
  latency = 100000000;
  reliability = 0;
  bandwidth = bandwidth;
  hop_count = 1;
  last_used = 0;
  last_tested = 5;
  failure_count = 0;
  success_count = 0;
  is_active = active;
}

abbrev path : String → ℕ → MultiPathRoute
path k i = record {
  destination = k;
  primary_path = some i;
  backup_paths = [];
  last_update = 5;
  load_balance = false;
  round_robin = 0;
}

-- The route to b is wider.
abbrev two_routes : RouteService numbers
two_routes = record {
  heap = route "a" 1048576 true ∷ route "b" 5242880 true ∷ [];
  multi_path_routes = ("a", path "a" 0) ∷ ("b", path "b" 1) ∷ [];
  route_metrics = ("a", 0) ∷ ("b", 1) ∷ [];
  max_backup_paths = 3;
  is_running = true;
}

get_best_route-update_multi_path_route_example :
    (best : ℕ) × IsBest insertion_sort 9 two_routes best
    × ((k : String)
        → get_best_route k (update_multi_path_route insertion_sort 9 "a" two_routes)
          ≡ (if "a" == k then some best else get_best_route k two_routes))
unfolding lookup
get_best_route-update_multi_path_route_example =
    get_best_route-update_multi_path_route insertion_sort 9 "a" two_routes insertion_sort-SorterLaws
      numbers-IsOrdered (λ e. cc) (λ e. let h : some (path "a" 0) ≡ none = e in cc)

-- Two routes for one destination, with load balancing, and a third that is not active.
abbrev balanced_path : MultiPathRoute
balanced_path = record {
  destination = "a";
  primary_path = some 0;
  backup_paths = 1 ∷ 2 ∷ [];
  last_update = 5;
  load_balance = true;
  round_robin = 4;
}

abbrev balanced : RouteService numbers
balanced = record {
  heap = route "a" 1048576 true ∷ route "b" 5242880 false ∷ route "c" 1048576 true ∷ [];
  multi_path_routes = ("a", balanced_path) ∷ [];
  route_metrics = ("a", 0) ∷ ("b", 1) ∷ ("c", 2) ∷ [];
  max_backup_paths = 3;
  is_running = true;
}

abbrev after_ping : RouteService numbers
after_ping = test_route insertion_sort 8 false 0 "a" 0 (
    reevaluate_routes insertion_sort 7 (
      update_route_metrics 6
        (some (record { id = some "b"; bandwidth = some 5242880; hop_count = none } ∷ []))
        (add_route 5 "a" (new_route_service {F = numbers}))))

Reachable-IsFiled_example :
    IsFiled after_ping.heap after_ping.route_metrics
    × Values (λ p. length p.backup_paths ≤ after_ping.max_backup_paths) after_ping.multi_path_routes
Reachable-IsFiled_example =
    Reachable-IsFiled insertion_sort {s = after_ping} insertion_sort-SorterLaws (
      Reachable.after
        (Reachable.after
          (Reachable.after (Reachable.after Reachable.initially (Step.add 5 "a"))
            (Step.refresh 6 _))
          (Step.reevaluate 7))
        (Step.ping 8 false 0 "a" 0))
