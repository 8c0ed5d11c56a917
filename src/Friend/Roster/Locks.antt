-- ===== src/Friend/Roster/Locks.antt =====
-- Which calls of internal/friend/list.go return, and what they leave behind.
use t_chat.Base.{
  ℕ, ◌-◌, ◌≡◌, refl, Bool, ◌&&◌, [], ◌∷◌, map, arith, some, none, ◌==◌, lookup, modify,
  lookup-modify, string_comparable, String, GoMap, if◌then◌else◌, leb,
}
use t_chat.Friend.Roster.{
  Friend, friend_exists, no_such_friend, idle, ◌>>=◌, get_friend, add_friend, remove_friend,
  update_friend_status, cleanup_offline_status, expire, online_timeout,
}

lookup-expire :
    (now : ℕ) (u : String) (m : GoMap String Friend)
    → lookup u (map (λ kv. (kv.0, expire now kv.1)) m)
      ≡ elim (lookup u m) [ none ↦ none | some f ↦ some (expire now f) ]
unfolding lookup
lookup-expire now u [] = refl
lookup-expire now u ((j, f) ∷ m) = ground (arith, lookup-expire now u m)

module _ (m : GoMap String Friend) (current : String) where
  -- `AddFriend` on a list that nobody has locked never returns if the friend is new, since
  -- `saveFriends` waits for the lock that `AddFriend` holds; if the friend is listed, it returns
  -- the error and leaves the list as it was.
  pub add_friend_lem :
      (write_ok : Bool) (friend : Friend)
      → add_friend write_ok friend (idle m current) ≡ elim (lookup friend.username m) [
        | none ↦ none
        | some _ ↦ some (some (friend_exists friend.username), idle m current)
      ]
  unfolding add_friend
  add_friend_lem write_ok friend = ground arith

  -- `RemoveFriend` on a list that nobody has locked never returns if there is such a friend, and
  -- otherwise returns the error and leaves the list as it was.
  pub remove_friend_lem :
      (write_ok : Bool) (username : String)
      → remove_friend write_ok username (idle m current) ≡ elim (lookup username m) [
        | some _ ↦ none
        | none ↦ some (some (no_such_friend username), idle m current)
      ]
  unfolding remove_friend
  remove_friend_lem write_ok username = ground arith

  -- `UpdateFriendStatus` on a list that nobody has locked returns with the lock free; afterwards
  -- `GetFriend` finds the named
  -- friend, if listed, with the new state and time, and every other friend as before.
  pub get_friend-update_friend_status :
      (now : ℕ) (username other : String) (is_online : Bool)
      → (update_friend_status now username is_online >>= λ _. get_friend other) (idle m current)
        ≡ some (
          if username == other
              then elim (lookup other m) [
                | some f ↦ some (record f { is_online = is_online; last_seen = now })
                | none ↦ none
              ]
              else lookup other m,
          idle
              (modify username (λ f. record f { is_online = is_online; last_seen = now }) m)
              current,
        )
  unfolding update_friend_status get_friend
  get_friend-update_friend_status now username other is_online =
      rw (lookup-modify username other (λ f. record f { is_online = is_online; last_seen = now }) m)

  -- After `CleanupOfflineStatus` on a list that nobody has locked a friend is shown online
  -- exactly if it was and has been seen
  -- within the last five minutes; nothing else about it changes, and the lock is free.
  pub get_friend-cleanup_offline_status :
      (now : ℕ) (other : String)
      → (cleanup_offline_status now >>= λ _. get_friend other) (idle m current)
        ≡ some (
          elim (lookup other m) [
            | none ↦ none
            | some f ↦
                some
                  (record f { is_online = f.is_online && leb (now - f.last_seen) online_timeout })
          ],
          idle (map (λ kv. (kv.0, expire now kv.1)) m) current,
        )
  unfolding cleanup_offline_status get_friend
  get_friend-cleanup_offline_status now other = rw (lookup-expire now other m) (ground arith)
