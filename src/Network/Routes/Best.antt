-- ===== src/Network/Routes/Best.antt =====
-- Which route internal/network/route_redundancy.go gives for a destination once it has evaluated
-- its routes.
use mathlib.Core.List.Permᴰ.{symm}
use mathlib.Core.List.{Permᴰ, Memᴰ}
use t_chat.Network.Sorting.{Sorter, SorterLaws, IsWeakOrder, IsSorted}
use t_chat.Base.{
  ℕ, ◌≡◌, ◌≢◌, refl, ◌∙◌, inl, inr, Bool, true, false, Option, none, some, List, [], ◌∷◌, map,
  String, string_comparable, ◌==◌, if◌then◌else◌, keep, All, All-Permᴰ, All-Memᴰ, Memᴰ-All,
  Permᴰ-nil, All-kept, arith, lookup, lookup-modify, get_elem?, Bool-cases,
}
use t_chat.Network.Routes.{
  Float64, RouteInfo, RouteService, is_active_at, with_paths, path_best_route,
}
use t_chat.Network.Routes.Service.{
  is_above, scores_higher, ranked_routes, update_multi_path_route, get_best_route,
}

-- The floats that occur are ordered: none is a NaN.
abbrev pub IsOrdered : Float64 → Type 0
IsOrdered F =
    ((a b : F.Float) → F.less a b ≡ true → F.less b a ≡ false)
    × ((a b c : F.Float) → F.less a b ≡ false → F.less b c ≡ false → F.less a c ≡ false)

module _ {F : Float64} (sorter : Sorter) (now : ℕ) where
  -- The best of the ranked routes is the primary path of the destination, and the answer.
  pub get_best_route-update :
      (d k : String) (best : ℕ) (others : List ℕ) (s : RouteService F)
      → ranked_routes sorter now s ≡ best ∷ others
      → is_active_at s.heap best ≡ true
      → get_best_route k (update_multi_path_route sorter now d s) ≡ (
          if d == k
          then elim (lookup k s.multi_path_routes) [ none ↦ none | some m ↦ some best ]
          else get_best_route k s)
  unfolding get_best_route update_multi_path_route path_best_route with_paths
  get_best_route-update d k best others s ranked active = ground (
    arith,
    ranked,
    active,
    lookup-modify d k (with_paths now s.max_backup_paths (ranked_routes sorter now s))
        s.multi_path_routes,
  )

  -- The routes that `updateMultiPathRoute` sorts.
  abbrev pub candidates : RouteService F → List ℕ
  candidates s = keep (is_active_at s.heap) (map (λ kv. kv.1) s.route_metrics)

  is_above_asym :
      (x y : Option (RouteInfo F))
      → IsOrdered F
      → is_above now x y ≡ true
      → is_above now y x ≡ false
  is_above_asym none y o h = cc
  is_above_asym (some x) none o h = cc
  is_above_asym (some x) (some y) o h = o.0 _ _ h

  is_above_trans :
      (x y z : Option (RouteInfo F))
      → IsOrdered F
      → y ≢ none
      → is_above now x y ≡ false
      → is_above now y z ≡ false
      → is_above now x z ≡ false
  is_above_trans none y z o m h k = refl
  is_above_trans (some x) y none o m h k = refl
  is_above_trans (some x) none (some z) o m h k = absurd (m refl)
  is_above_trans (some x) (some y) (some z) o m h k = o.1 _ _ _ k h

  in_store :
      (heap : List (RouteInfo F)) (i : ℕ) → is_active_at heap i ≡ true → get_elem? heap i ≢ none
  in_store heap i active e = ground arith

  pub is_active_candidate :
      (s : RouteService F) (i : ℕ) → Memᴰ i (candidates s) → is_active_at s.heap i ≡ true
  is_active_candidate s i m =
      Memᴰ-All (λ i. is_active_at s.heap i ≡ true) i (candidates s) m
        (All-kept (is_active_at s.heap) (map (λ kv. kv.1) s.route_metrics))

  scores_higher-IsWeakOrder :
      (s : RouteService F) → IsOrdered F → IsWeakOrder (scores_higher now s.heap) (candidates s)
  scores_higher-IsWeakOrder s o = (
    λ a b in_a in_b h. is_above_asym (get_elem? s.heap a) (get_elem? s.heap b) o h,
    λ a b c in_a in_b in_c h k.
        is_above_trans (get_elem? s.heap a) (get_elem? s.heap b) (get_elem? s.heap c) o
          (in_store s.heap b (is_active_candidate s b in_b)) h k,
  )

  -- A route that is active, and none that is has a higher score.
  abbrev pub IsBest : RouteService F → ℕ → Type 0
  IsBest s i =
      Memᴰ i (candidates s) × All (λ j. scores_higher now s.heap j i ≡ false) (candidates s)

  irreflexive : (s : RouteService F) (i : ℕ) → IsOrdered F → scores_higher now s.heap i i ≡ false
  irreflexive s i o = elim (Bool-cases (scores_higher now s.heap i i)) [
    | inl e ↦ is_above_asym (get_elem? s.heap i) (get_elem? s.heap i) o e
    | inr e ↦ e
  ]

  pub ranked_routes-IsBest :
      (s : RouteService F)
      → SorterLaws sorter
      → IsOrdered F
      → candidates s ≢ []
      → (best : ℕ) × (others : List ℕ) × (ranked_routes sorter now s ≡ best ∷ others)
        × IsBest s best
  unfolding ranked_routes
  ranked_routes-IsBest s laws o some_active =
      from (ranked_routes sorter now s) (laws.sort_slice-Permᴰ lt (candidates s))
        (laws.sort_slice-IsSorted lt (candidates s) (scores_higher-IsWeakOrder s o)) refl
    where
      lt : ℕ → ℕ → Bool
      lt = scores_higher now s.heap

      from :
          (l : List ℕ)
          → Permᴰ (candidates s) l
          → IsSorted lt l
          → ranked_routes sorter now s ≡ l
          → (best : ℕ) × (others : List ℕ) × (ranked_routes sorter now s ≡ best ∷ others)
            × IsBest s best
      from [] p sorted e = absurd (some_active (Permᴰ-nil (candidates s) p))
      from (best ∷ others) p sorted e = (
        best,
        others,
        e,
        (
          (All-Permᴰ (λ x. Memᴰ x (candidates s)) (candidates s) (best ∷ others) p
              (All-Memᴰ (candidates s))).0,
          All-Permᴰ (λ j. lt j best ≡ false) (best ∷ others) (candidates s) (symm p)
              (irreflexive s best o, sorted.0),
        ),
      )

-- By the laws of sort.Slice, and with floats that are ordered, if some route is active, to whatever
-- peer, `updateMultiPathRoute` on a known destination makes `GetBestRoute` answer an active route of
-- the service such that no active route to any peer has a higher score, although the comments of both
-- speak of the routes to the destination; and it changes the answer for no other destination.
pub get_best_route-update_multi_path_route :
    {F : Float64} (sorter : Sorter) (now : ℕ) (d : String) (s : RouteService F)
    → SorterLaws sorter
    → IsOrdered F
    → candidates sorter now s ≢ []
    → lookup d s.multi_path_routes ≢ none
    → (best : ℕ) × IsBest sorter now s best
      × ((k : String)
          → get_best_route k (update_multi_path_route sorter now d s)
            ≡ (if d == k then some best else get_best_route k s))
get_best_route-update_multi_path_route sorter now d s laws o some_active known =
    let (best, others, ranked, is_best) = ranked_routes-IsBest sorter now s laws o some_active in
    (
      best,
      is_best,
      λ k.
          get_best_route-update sorter now d k best others s ranked
            (is_active_candidate sorter now s best is_best.0)
          ∙ ground (arith, known, string_comparable.equals_iff d k),
    )
