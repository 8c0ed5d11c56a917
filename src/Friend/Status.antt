-- ===== src/Friend/Status.antt =====
-- The cache of online states: internal/friend/status.go. The time of a call is an argument, in
-- nanoseconds. The clock does not run backwards within a call sequence where a theorem says so.
use t_chat.Base.{
  ℕ, ◌-◌, ◌≡◌, Bool, true, false, not, ◌&&◌, none, some, [], ◌≤◌, ◌<◌, String, string_comparable,
  ltb, leb, ◌==◌, if◌then◌else◌, GoMap, lookup, store, remove, lookup-store, lookup-remove,
  keep_values, DistinctKeys, lookup-keep_values, arith,
}

pub record FriendStatus : Type 0 where
  pub online : Bool
  pub updated_at : ℕ
  pub ttl : ℕ

abbrev pub StatusCache : Type 0
StatusCache = GoMap String FriendStatus

abbrev pub new_status_cache : StatusCache
new_status_cache = []

abbrev pub is_expired : ℕ → FriendStatus → Bool
is_expired now s = ltb s.ttl (now - s.updated_at)

unfoldable pub set_status : ℕ → String → Bool → ℕ → StatusCache → StatusCache
set_status now username online ttl sc =
    store username (record { online = online; updated_at = now; ttl = ttl }) sc

-- `Get` returns the state and whether it is known, and drops an entry that has expired.
unfoldable pub get_status : ℕ → String → StatusCache → (Bool × Bool) × StatusCache
get_status now username sc = elim (lookup username sc) [
  | none ↦ ((false, false), sc)
  | some s ↦
      if is_expired now s then ((false, false), remove username sc) else ((s.online, true), sc)
]

unfoldable pub cleanup_status : ℕ → StatusCache → StatusCache
cleanup_status now sc = keep_values (λ s. not (is_expired now s)) sc

unfoldable pub set_online : ℕ → String → StatusCache → StatusCache
unfolding set_status
set_online now username sc = set_status now username true 0 sc

unfoldable pub set_offline : ℕ → String → StatusCache → StatusCache
unfolding set_status
set_offline now username sc = set_status now username false 0 sc

unfoldable pub is_online : ℕ → String → StatusCache → Bool × StatusCache
unfolding get_status
is_online now username sc =
    let ((online, ok), sc') = get_status now username sc in (ok && online, sc')

-- What `Get` answers at the same or a later time is what it would have answered without the
-- first `Get`.
pub get_status-get_status :
    (now later : ℕ) (u v : String) (sc : StatusCache)
    → now ≤ later
    → (get_status later v (get_status now u sc).1).0 ≡ (get_status later v sc).0
unfolding get_status
get_status-get_status now later u v sc h =
    ground (arith, lookup-remove u v sc, string_comparable.equals_iff u v)

-- A state that is set is answered for as long as its time to live, and then no longer; the
-- answers for the other users stay.
pub get_status-set_status :
    (now later ttl : ℕ) (u v : String) (online : Bool) (sc : StatusCache)
    → (get_status later v (set_status now u online ttl sc)).0 ≡ (
        if u == v
        then if leb (later - now) ttl then (online, true) else (false, false)
        else (get_status later v sc).0)
unfolding get_status set_status
get_status-set_status now later ttl u v online sc = ground (
  arith,
  lookup-store u v (record { online = online; updated_at = now; ttl = ttl }) sc,
  string_comparable.equals_iff u v,
)

-- `SetOnline` gives a time to live of 0, so one nanosecond later the friend is not online.
pub is_online-set_online :
    (now later : ℕ) (u : String) (sc : StatusCache)
    → now < later
    → (is_online later u (set_online now u sc)).0 ≡ false
unfolding is_online set_online
is_online-set_online now later u sc h = ground (
  arith,
  lookup-store u u (record { online = true; updated_at = now; ttl = 0 }) sc,
  string_comparable.equals_iff u u,
)

-- `Cleanup` of a cache with distinct keys changes no answer, then or later.
pub get_status-cleanup_status :
    (now later : ℕ) (u : String) (sc : StatusCache)
    → DistinctKeys sc
    → now ≤ later
    → (get_status later u (cleanup_status now sc)).0 ≡ (get_status later u sc).0
unfolding get_status cleanup_status
get_status-cleanup_status now later u sc d h =
    ground (arith, lookup-keep_values (λ s. not (is_expired now s)) u sc d)
