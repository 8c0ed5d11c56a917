-- ===== src/Friend/Roster.antt =====
-- The friend list: internal/friend/list.go. `sync.RWMutex` is part of the state: a call that
-- waits for a lock which its own goroutine holds never returns, which is `none`. The JSON file is
-- not read back here; whether the write succeeds is an argument of the call.
pub mod Locks
use t_chat.Base.{
  ℕ, suc, ◌-◌, Bool, true, false, ◌&&◌, ◌||◌, Option, none, some, List, [], ◌∷◌, map, String,
  string_comparable, ltb, ◌==◌, if◌then◌else◌, GoMap, lookup, store, remove, modify, not, eqb,
}

pub record Friend : Type 0 where
  pub username : String
  pub pinecone_addr : String
  pub is_online : Bool
  pub last_seen : ℕ  -- nanoseconds
  pub added_at : ℕ

-- `sync.RWMutex`: a writer excludes everybody, readers exclude writers.
pub record RwMutex : Type 0 where
  pub writer : Bool
  pub readers : ℕ

abbrev pub unlocked : RwMutex
unlocked = record { writer = false; readers = 0 }

pub record Roster : Type 0 where
  pub friends : GoMap String Friend
  pub mutex : RwMutex
  pub current_username : String

-- A list whose lock nobody holds.
abbrev pub idle : GoMap String Friend → String → Roster
idle friends current = record { friends = friends; mutex = unlocked; current_username = current }

pub data Error : Type 0 where
  friend_exists : String → Error
  no_such_friend : String → Error
  write_failed : Error

-- A method call: it returns a value and the new state, or never returns.
abbrev pub M : Type 0 → Type 0
M A = Roster → Option (A × Roster)

infixl 5 ◌>>=◌ ◌>>◌
abbrev pub ◌>>=◌ : {A B : Type 0} → M A → (A → M B) → M B
◌>>=◌ m f l = elim (m l) [ none ↦ none | some (a, l') ↦ f a l' ]

abbrev pub ◌>>◌ : {A B : Type 0} → M A → M B → M B
◌>>◌ m k = m >>= λ _. k

abbrev pub return : {A : Type 0} → A → M A
return a l = some (a, l)

abbrev pub lock : M (Unit {0})
lock l =
    if l.mutex.writer || not (eqb l.mutex.readers 0)
    then none
    else some (tt, record l { mutex = record { writer = true; readers = 0 } })

abbrev pub unlock : M (Unit {0})
unlock l = some (tt, record l { mutex = record { writer = false; readers = l.mutex.readers } })

abbrev pub r_lock : M (Unit {0})
r_lock l =
    if l.mutex.writer
    then none
    else some (tt, record l { mutex = record { writer = false; readers = suc l.mutex.readers } })

abbrev pub r_unlock : M (Unit {0})
r_unlock l =
    some
      (tt, record l { mutex = record { writer = l.mutex.writer; readers = l.mutex.readers - 1 } })

abbrev friends_of : M (GoMap String Friend)
friends_of l = some (l.friends, l)

abbrev set_friends : GoMap String Friend → M (Unit {0})
set_friends m l = some (tt, record l { friends = m })

unfoldable pub get_friend : String → M (Option Friend)
get_friend username = do r_lock; m ← friends_of; r_unlock; return (lookup username m)

unfoldable pub get_all_friends : M (List Friend)
get_all_friends = do r_lock; m ← friends_of; r_unlock; return (map (λ kv. kv.1) m)

-- `saveFriends` collects the friends by `GetAllFriends`.
unfoldable pub save_friends : Bool → M (Option Error)
unfolding get_all_friends
save_friends write_ok = do
  friends ← get_all_friends
  return (if write_ok then none else some write_failed)

unfoldable pub add_friend : Bool → Friend → M (Option Error)
unfolding save_friends
add_friend write_ok friend = do
  lock
  m ← friends_of
  elim (lookup friend.username m) [
    | some _ ↦ unlock >> return (some (friend_exists friend.username))
    | none ↦
        set_friends (store friend.username friend m)
        >> (save_friends write_ok >>= λ e. unlock >> return e)
  ]

unfoldable pub remove_friend : Bool → String → M (Option Error)
unfolding save_friends
remove_friend write_ok username = do
  lock
  m ← friends_of
  elim (lookup username m) [
    | none ↦ unlock >> return (some (no_such_friend username))
    | some _ ↦
        set_friends (remove username m) >> (save_friends write_ok >>= λ e. unlock >> return e)
  ]

unfoldable pub update_friend_status : ℕ → String → Bool → M (Unit {0})
update_friend_status now username is_online = do
  lock
  m ← friends_of
  set_friends (modify username (λ f. record f { is_online = is_online; last_seen = now }) m)
  unlock

-- Five minutes.
abbrev pub online_timeout : ℕ
online_timeout = 300_000_000_000

abbrev pub expire : ℕ → Friend → Friend
expire now f =
    if f.is_online && ltb online_timeout (now - f.last_seen)
    then record f { is_online = false }
    else f

unfoldable pub cleanup_offline_status : ℕ → M (Unit {0})
cleanup_offline_status now = do
  lock
  m ← friends_of
  set_friends (map (λ kv. (kv.0, expire now kv.1)) m)
  unlock

unfoldable pub get_pinecone_addr : String → M (Option String × Option Error)
get_pinecone_addr username = do
  r_lock
  m ← friends_of
  r_unlock
  return (elim (lookup username m) [
    | none ↦ (none, some (no_such_friend username))
    | some f ↦ (some f.pinecone_addr, none)
  ])

unfoldable pub set_current_account : String → M (Unit {0})
set_current_account username l =
    (lock >> (λ k. some (tt, record k { current_username = username })) >> unlock) l

unfoldable pub get_current_account : M (Option Friend)
get_current_account = do
  r_lock
  name ← λ l. some (l.current_username, l)
  r_unlock
  return (
      if name == ""
      then none
      else some (record {
        username = name;
        pinecone_addr = "";
        is_online = false;
        last_seen = 0;
        added_at = 0;
      }))
