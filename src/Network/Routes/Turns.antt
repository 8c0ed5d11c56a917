-- ===== src/Network/Routes/Turns.antt =====
-- Load balancing in internal/network/route_redundancy.go.
use native.Mathlib.Nat.{suc-mod, mod-eq_of_lt}
use t_chat.Base.{
  ℕ, zero, suc, ◌+◌, ◌%◌, ◌<◌, ◌≡◌, refl, ap, sym, ◌∙◌, true, false, Option, some, List, [], ◌∷◌,
  map, String, string_comparable, eqb, length, get_elem?, drop, drop_all, arith, lookup, store,
  lookup-store,
}
use t_chat.Network.Routes.{
  Float64, RouteInfo, MultiPathRoute, RouteService, active_routes, path_next_route,
}
use t_chat.Network.Routes.Service.{get_next_route}

some-drop :
    (j : ℕ) (xs : List ℕ)
    → j < length xs
    → map some (drop j xs) ≡ get_elem? xs j ∷ map some (drop (suc j) xs)
some-drop j [] h = absurd (omega arith)
some-drop zero (x ∷ xs) h = refl
some-drop (suc j) (x ∷ xs) h = some-drop j xs (omega arith)

next_turn : (r j n : ℕ) → suc j < n → r % n ≡ j → suc r % n ≡ suc j
next_turn r j n h e = suc-mod r n ∙ ap (λ (k : ℕ). suc k % n) e ∙ mod-eq_of_lt h

module _ {F : Float64} (d : String) where
  -- The answers of a number of calls of `GetNextRoute` one after the other.
  unfoldable pub next_routes : ℕ → RouteService F → List (Option ℕ)
  next_routes zero s = []
  next_routes (suc k) s = let (route, s') = get_next_route d s in route ∷ next_routes k s'

  abbrev advanced : MultiPathRoute → RouteService F → RouteService F
  advanced m s = record s {
    multi_path_routes = store d (record m { round_robin = suc m.round_robin }) s.multi_path_routes;
  }

  path_turn :
      (heap : List (RouteInfo F)) (m : MultiPathRoute) (j : ℕ)
      → m.load_balance ≡ true
      → 0 < length (active_routes heap m)
      → m.round_robin % length (active_routes heap m) ≡ j
      → path_next_route heap m
        ≡ (get_elem? (active_routes heap m) j, record m { round_robin = suc m.round_robin })
  unfolding path_next_route
  path_turn heap m j on some_active turn = ground (arith, nonzero)
    where
      nonzero : eqb (length (active_routes heap m)) 0 ≡ false
      nonzero = ground arith

  get_next_route_turn :
      (s : RouteService F) (m : MultiPathRoute) (j : ℕ)
      → lookup d s.multi_path_routes ≡ some m
      → m.load_balance ≡ true
      → 0 < length (active_routes s.heap m)
      → m.round_robin % length (active_routes s.heap m) ≡ j
      → get_next_route d s ≡ (get_elem? (active_routes s.heap m) j, advanced m s)
  unfolding get_next_route
  get_next_route_turn s m j found on some_active turn =
      rw (found, path_turn s.heap m j on some_active turn, get_next_route) refl

  lookup-advanced :
      (s : RouteService F) (m : MultiPathRoute)
      → lookup d (advanced m s).multi_path_routes
        ≡ some (record m { round_robin = suc m.round_robin })
  lookup-advanced s m = ground (
    arith,
    lookup-store d d (record m { round_robin = suc m.round_robin }) s.multi_path_routes,
    string_comparable.equals_iff d d,
  )

  next_routes_from :
      (k : ℕ) (s : RouteService F) (m : MultiPathRoute) (j : ℕ)
      → lookup d s.multi_path_routes ≡ some m
      → m.load_balance ≡ true
      → j + k ≡ length (active_routes s.heap m)
      → (j < length (active_routes s.heap m) → m.round_robin % length (active_routes s.heap m) ≡ j)
      → next_routes k s ≡ map some (drop j (active_routes s.heap m))
  unfolding next_routes active_routes
  next_routes_from zero s m j found on whole turn =
      rw (drop_all j (active_routes s.heap m) (omega arith)) refl
  next_routes_from (suc k) s m j found on whole turn =
      let active : List ℕ = active_routes s.heap m in
      let inside : j < length active = omega arith in
      ap (λ (r : Option ℕ × RouteService F). r.0 ∷ next_routes k r.1)
        (get_next_route_turn s m j found on (omega arith) (turn inside))
      ∙ ap (λ l. get_elem? active j ∷ l)
          (next_routes_from k (advanced m s) (record m { round_robin = suc m.round_robin }) (suc j)
            (lookup-advanced s m) on (omega arith)
            (λ h. next_turn m.round_robin j (length active) h (turn inside)))
      ∙ sym (some-drop j active inside)

-- With load balancing, and a counter that starts a round, as many calls of `GetNextRoute` as the
-- destination has active routes give each of them once, the primary path first.
pub next_routes_lem :
    {F : Float64} (d : String) (s : RouteService F) (m : MultiPathRoute)
    → lookup d s.multi_path_routes ≡ some m
    → m.load_balance ≡ true
    → m.round_robin % length (active_routes s.heap m) ≡ 0
    → next_routes d (length (active_routes s.heap m)) s ≡ map some (active_routes s.heap m)
next_routes_lem d s m found on turn =
    next_routes_from d (length (active_routes s.heap m)) s m 0 found on (omega arith) (λ h. turn)
