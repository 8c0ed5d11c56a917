-- ===== src/Network/Routes/Invariant.antt =====
-- What every method of internal/network/route_redundancy.go keeps: the addresses are in the store,
-- each route is filed under its peer, and no path has too many backup paths.
use t_chat.Network.Sorting.{Sorter, SorterLaws}
use t_chat.Base.{
  field_at, field_at-write_at_index, field_at-last, field_at-append, field_at-lt,
  length-write_at_index, write_at_index, ℕ, ◌≤◌, ◌<◌, ◌≡◌, ◌∙◌, inl, inr, Option, none, some, List,
  [], ◌∷◌, ◌++◌, map, String, string_comparable, length, keep, All, All-keep, All-map, All-take,
  All-Permᴰ, arith, length-append, length-take, GoMap, lookup, Values, Values-modify, Values-store,
  All-store, Option-cases,
}
use t_chat.Network.Routes.{
  Float64, RouteInfo, MultiPathRoute, RouteService, with_paths, is_active_at,
}
use t_chat.Network.Routes.Service.{
  new_route, put_route, add_route, scores_higher, ranked_routes, update_multi_path_route,
}

-- `n` objects are in the store.
abbrev pub IsPrimary : ℕ → Option ℕ → Type 0
IsPrimary n none = Unit {0}
IsPrimary n (some i) = i < n

abbrev pub IsPath : ℕ → ℕ → MultiPathRoute → Type 0
IsPath n limit m =
    IsPrimary n m.primary_path × All (λ i. i < n) m.backup_paths × (length m.backup_paths ≤ limit)

IsPrimary-mono : (n n' : ℕ) (p : Option ℕ) → n ≤ n' → IsPrimary n p → IsPrimary n' p
IsPrimary-mono n n' none h a = tt
IsPrimary-mono n n' (some i) h a = omega arith

IsPath-mono : (n n' limit : ℕ) (m : MultiPathRoute) → n ≤ n' → IsPath n limit m → IsPath n' limit m
IsPath-mono n n' limit m h p = (
  IsPrimary-mono n n' m.primary_path h p.0,
  All-map _ _ m.backup_paths (λ i e. omega arith) p.1,
  p.2,
)

-- The first of some addresses and the next ones make a path.
IsPath-with_paths :
    (n limit now : ℕ) (ranked : List ℕ)
    → All (λ i. i < n) ranked
    → (m : MultiPathRoute) → IsPath n limit m
    → IsPath n limit (with_paths now limit ranked m)
unfolding with_paths
IsPath-with_paths n limit now [] a m p = p
IsPath-with_paths n limit now (i ∷ is) a m p =
    (a.0, All-take _ limit is a.1, omega (arith, length-take limit is))

module _ {F : Float64} where
  -- The peer of the route at an address.
  abbrev pub peer_at : List (RouteInfo F) → ℕ → Option String
  peer_at = field_at (λ r. r.peer_id)

  abbrev pub IsFiled : List (RouteInfo F) → GoMap String ℕ → Type 0
  IsFiled heap = All (λ (kv : String × ℕ). peer_at heap kv.1 ≡ some kv.0)

  pub record IsSound (s : RouteService F) : Type 0 where
    pub filed : IsFiled s.heap s.route_metrics
    pub paths : Values (IsPath (length s.heap) s.max_backup_paths) s.multi_path_routes

  IsFiled-lt :
      (heap : List (RouteInfo F)) (m : GoMap String ℕ)
      → IsFiled heap m
      → All (λ i. i < length heap) (map (λ kv. kv.1) m)
  IsFiled-lt heap [] h = tt
  IsFiled-lt heap ((k, i) ∷ m) h =
      (field_at-lt (λ r. r.peer_id) heap i k h.0, IsFiled-lt heap m h.1)

  pub write-IsSound :
      (i : ℕ) (f : RouteInfo F → RouteInfo F) (s : RouteService F)
      → ((r : RouteInfo F) → (f r).peer_id ≡ r.peer_id)
      → IsSound s
      → IsSound (record s { heap = write_at_index i f s.heap })
  write-IsSound i f s same sound = record {
    filed =
        All-map _ _ s.route_metrics
          (λ kv e. field_at-write_at_index (λ r. r.peer_id) i kv.1 f s.heap same ∙ e) sound.filed;
    paths = rw (length-write_at_index i f s.heap) sound.paths;
  }

  pub put_route-IsSound :
      (now tenths : ℕ) (k : String) (s : RouteService F)
      → IsSound s
      → IsSound (put_route now tenths k s)
  unfolding put_route new_route
  put_route-IsSound now tenths k s sound = record {
    filed =
        All-store _ k (length s.heap) s.route_metrics
          (field_at-last (λ r. r.peer_id) s.heap (new_route now tenths k))
          (All-map _ _ s.route_metrics
            (λ kv e. field_at-append (λ r. r.peer_id) s.heap (new_route now tenths k) kv.1 kv.0 e)
            sound.filed);
    paths =
        Values-store (IsPath (length (s.heap ++ (new_route now tenths k ∷ []))) s.max_backup_paths)
          k _ s.multi_path_routes
          (omega (arith, length-append s.heap (new_route now tenths k ∷ [])), tt, omega arith)
          (All-map _ _ s.multi_path_routes
            (λ kv e.
              IsPath-mono (length s.heap) _ s.max_backup_paths kv.1
                (omega (arith, length-append s.heap (new_route now tenths k ∷ []))) e)
            sound.paths);
  }

  pub add_route-IsSound :
      (now : ℕ) (k : String) (s : RouteService F) → IsSound s → IsSound (add_route now k s)
  unfolding add_route
  add_route-IsSound now k s sound = elim (Option-cases (lookup k s.route_metrics)) [
    | inl new ↦ rw (new, add_route) (put_route-IsSound now 8 k s sound)
    | inr (i, known) ↦ rw (known, add_route) sound
  ]

  -- Only addresses of the store are ranked.
  ranked_routes-lt :
      (sorter : Sorter) (now : ℕ) (s : RouteService F)
      → SorterLaws sorter
      → IsFiled s.heap s.route_metrics
      → All (λ i. i < length s.heap) (ranked_routes sorter now s)
  unfolding ranked_routes
  ranked_routes-lt sorter now s laws filed =
      let found = keep (is_active_at s.heap) (map (λ kv. kv.1) s.route_metrics) in
      All-Permᴰ _ found _ (laws.sort_slice-Permᴰ (scores_higher now s.heap) found)
        (All-keep _ (is_active_at s.heap) _ (IsFiled-lt s.heap s.route_metrics filed))

  pub update-IsSound :
      (sorter : Sorter) (now : ℕ) (d : String) (s : RouteService F)
      → SorterLaws sorter
      → IsSound s
      → IsSound (update_multi_path_route sorter now d s)
  unfolding update_multi_path_route
  update-IsSound sorter now d s laws sound = record {
    filed = sound.filed;
    paths =
        Values-modify (IsPath (length s.heap) s.max_backup_paths) d
          (with_paths now s.max_backup_paths (ranked_routes sorter now s)) s.multi_path_routes
          (IsPath-with_paths (length s.heap) s.max_backup_paths now (ranked_routes sorter now s)
            (ranked_routes-lt sorter now s laws sound.filed))
          sound.paths;
  }
