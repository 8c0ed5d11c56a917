-- ===== src/Network/Routes/Reevaluation.antt =====
-- What `UpdateRoutes` of internal/network/route_redundancy.go does to the answers.
use t_chat.Network.Sorting.{Sorter, SorterLaws}
use t_chat.Base.{
  ℕ, ◌≡◌, ◌≢◌, refl, ◌∙◌, Bool, true, false, Option, none, some, List, [], ◌∷◌, String,
  string_comparable, ◌==◌, if◌then◌else◌, arith, GoMap, lookup, lookup-modify,
}
use t_chat.Network.Routes.{Float64, MultiPathRoute, RouteService, is_active_at, with_paths}
use t_chat.Network.Routes.Service.{
  ranked_routes, update_multi_path_route, reevaluate_each, reevaluate_routes, get_best_route,
}
use t_chat.Network.Routes.Best.{
  IsOrdered, candidates, IsBest, ranked_routes-IsBest, is_active_candidate, get_best_route-update,
}

abbrev answer : ℕ → Option MultiPathRoute → Option ℕ
answer best none = none
answer best (some m) = some best

abbrev is_key : String → GoMap String MultiPathRoute → Bool
is_key k [] = false
is_key k ((d, m) ∷ rest) = if d == k then true else is_key k rest

lookup-not_key :
    (k : String) (routes : GoMap String MultiPathRoute)
    → is_key k routes ≡ false
    → lookup k routes ≡ none
unfolding lookup
lookup-not_key k [] h = refl
lookup-not_key k ((d, m) ∷ rest) h = ground (arith, lookup-not_key k rest)

module _ {F : Float64} (sorter : Sorter) (now : ℕ) where
  answer-update :
      (d k : String) (best : ℕ) (s : RouteService F)
      → answer best (lookup k (update_multi_path_route sorter now d s).multi_path_routes)
        ≡ answer best (lookup k s.multi_path_routes)
  unfolding update_multi_path_route
  answer-update d k best s = ground (
    arith,
    lookup-modify d k (with_paths now s.max_backup_paths (ranked_routes sorter now s))
        s.multi_path_routes,
  )

  ranked_routes-update :
      (d : String) (s : RouteService F)
      → ranked_routes sorter now (update_multi_path_route sorter now d s)
        ≡ ranked_routes sorter now s
  unfolding update_multi_path_route ranked_routes
  ranked_routes-update d s = refl

  get_best_route-reevaluate_each :
      (k : String) (best : ℕ) (others : List ℕ) (l : GoMap String MultiPathRoute)
      (s : RouteService F)
      → ranked_routes sorter now s ≡ best ∷ others
      → is_active_at s.heap best ≡ true
      → get_best_route k (reevaluate_each sorter now l s)
        ≡ (if is_key k l then answer best (lookup k s.multi_path_routes) else get_best_route k s)
  unfolding reevaluate_each update_multi_path_route
  get_best_route-reevaluate_each k best others [] s ranked active = refl
  get_best_route-reevaluate_each k best others ((d, m) ∷ l) s ranked active =
      get_best_route-reevaluate_each k best others l (update_multi_path_route sorter now d s)
        (ranked_routes-update d s ∙ ranked) active
      ∙ ground (
        arith,
        answer-update d k best s,
        get_best_route-update sorter now d k best others s ranked active,
      )

-- If some route is active, then after `UpdateRoutes` the answer of `GetBestRoute` is one route for
-- all destinations of the table: an active route of the service such that no active route has a
-- higher score. The destination plays no part.
pub get_best_route-reevaluate_routes :
    {F : Float64} (sorter : Sorter) (now : ℕ) (s : RouteService F)
    → SorterLaws sorter
    → IsOrdered F
    → candidates sorter now s ≢ []
    → (best : ℕ) × IsBest sorter now s best
      × ((k : String)
          → get_best_route k (reevaluate_routes sorter now s)
            ≡ elim (lookup k s.multi_path_routes) [ none ↦ none | some m ↦ some best ])
unfolding reevaluate_routes get_best_route
get_best_route-reevaluate_routes sorter now s laws o some_active =
    let (best, others, ranked, is_best) = ranked_routes-IsBest sorter now s laws o some_active in
    (
      best,
      is_best,
      λ k.
          get_best_route-reevaluate_each sorter now k best others s.multi_path_routes s ranked
            (is_active_candidate sorter now s best is_best.0)
          ∙ ground (arith, lookup-not_key k s.multi_path_routes),
    )
