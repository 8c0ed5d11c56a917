-- ===== src/Network/Routes.antt =====
-- The table of redundant routes: internal/network/route_redundancy.go. The objects of type
-- RouteInfo lie in a store, and the maps and paths hold their addresses, since the code shares
-- them. The time of a call and the network information are arguments; floats and sort.Slice are
-- records of functions. Tickers, the event channel and the statistics are not modelled.
pub mod Service
pub mod Best
pub mod Reevaluation
pub mod Turns
pub mod Invariant
pub mod Reachable
use t_chat.Network.Sorting.{Sorter}
use t_chat.Base.{
  ℕ, zero, suc, ◌+◌, ◌-◌, ◌/◌, ◌%◌, Bool, true, false, Option, none, some, List, [], ◌∷◌, ◌++◌, map,
  String, string_comparable, ltb, leb, eqb, if◌then◌else◌, length, get_elem?, take, keep, GoMap,
  lookup, store, modify,
}

-- float64, with the literals as fractions, and math.Min.
pub record Float64 : Type 1 where
  pub Float : Type 0
  pub less : Float → Float → Bool
  pub literal : ℕ → ℕ → Float
  pub of_int : ℕ → Float
  pub add : Float → Float → Float
  pub sub : Float → Float → Float
  pub mul : Float → Float → Float
  pub div : Float → Float → Float
  pub min_float : Float → Float → Float

-- Durations and times in nanoseconds.
pub record RouteInfo (F : Float64) : Type 0 where
  pub peer_id : String
  pub latency : ℕ
  pub reliability : F.Float
  pub bandwidth : ℕ
  pub hop_count : ℕ
  pub last_used : ℕ
  pub last_tested : ℕ
  pub failure_count : ℕ
  pub success_count : ℕ
  pub is_active : Bool

pub record MultiPathRoute : Type 0 where
  pub destination : String
  pub primary_path : Option ℕ
  pub backup_paths : List ℕ
  pub last_update : ℕ
  pub load_balance : Bool
  pub round_robin : ℕ

-- `heap` is the store: the object at address `i` is its element `i`.
pub record RouteService (F : Float64) : Type 0 where
  pub heap : List (RouteInfo F)
  pub multi_path_routes : GoMap String MultiPathRoute
  pub route_metrics : GoMap String ℕ
  pub max_backup_paths : ℕ
  pub is_running : Bool

-- An entry of "peers": what it holds under "id", "bandwidth" and "hop_count".
pub record Peer : Type 0 where
  pub id : Option String
  pub bandwidth : Option ℕ
  pub hop_count : Option ℕ

-- The paths that `updateMultiPathRoute` sets from the sorted routes.
unfoldable pub with_paths : ℕ → ℕ → List ℕ → MultiPathRoute → MultiPathRoute
with_paths now limit [] m = record m { last_update = now }
with_paths now limit (best ∷ others) m = record m {
  primary_path = some best;
  backup_paths = take limit others;
  last_update = now;
}

module _ {F : Float64} where
  unfoldable pub route_score : ℕ → RouteInfo F → F.Float
  route_score now r =
      let score = F.mul r.reliability (F.of_int 100) in
      let score = F.sub score (F.div (F.of_int (r.latency / 1000000)) (F.of_int 10)) in
      let score = F.sub score (F.mul (F.of_int r.hop_count) (F.of_int 5)) in
      let score =
        F.add score (F.div (F.div (F.of_int r.bandwidth) (F.of_int 1024)) (F.of_int 1024)) in
      if ltb (now - r.last_used) 60000000000 then F.add score (F.of_int 10) else score

  -- Whether the route at an address is active.
  abbrev pub is_active_at : List (RouteInfo F) → ℕ → Bool
  is_active_at heap i = elim (get_elem? heap i) [ none ↦ false | some r ↦ r.is_active ]

  -- The primary path, if it is active, and then the active backup paths.
  unfoldable pub active_routes : List (RouteInfo F) → MultiPathRoute → List ℕ
  active_routes heap m = elim m.primary_path [
    | none ↦ keep (is_active_at heap) m.backup_paths
    | some p ↦ keep (is_active_at heap) (p ∷ m.backup_paths)
  ]

  -- The loop over the backup paths.
  unfoldable pub first_active : List (RouteInfo F) → List ℕ → Option ℕ
  first_active heap [] = none
  first_active heap (p ∷ ps) = if is_active_at heap p then some p else first_active heap ps

  unfoldable pub path_best_route : List (RouteInfo F) → MultiPathRoute → Option ℕ
  unfolding first_active
  path_best_route heap m = elim m.primary_path [
    | none ↦ first_active heap m.backup_paths
    | some p ↦ if is_active_at heap p then some p else first_active heap m.backup_paths
  ]

  -- A call with load balancing moves the counter.
  unfoldable pub path_next_route : List (RouteInfo F) → MultiPathRoute → Option ℕ × MultiPathRoute
  unfolding path_best_route active_routes
  path_next_route heap m =
      let active = active_routes heap m in
      if m.load_balance
      then elim (eqb (length active) 0) [
        | true ↦ (none, m)
        | false ↦ (
          get_elem? active (m.round_robin % length active),
          record m { round_robin = suc m.round_robin },
        )
      ]
      else (path_best_route heap m, m)
