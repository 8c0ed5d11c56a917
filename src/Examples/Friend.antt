-- ===== src/Examples/Friend.antt =====
-- A friend list, a status cache and a blacklist: internal/friend.
use t_chat.Base.{◌≡◌, true, none, [], ◌∷◌, String, string_comparable, GoMap, lookup}
use t_chat.Friend.Roster.{Friend, idle, add_friend}
use t_chat.Friend.Roster.Locks.{add_friend_lem}
use t_chat.Friend.Status.{StatusCache}

abbrev ann : Friend
ann = record {
  username = "ann";
  pinecone_addr = "f00";
  is_online = true;
  last_seen = 100;
  added_at = 50;
}

abbrev friends : GoMap String Friend
friends = ("ann", ann) ∷ []

abbrev cache : StatusCache
cache = ("ann", record { online = true; updated_at = 10; ttl = 5 }) ∷ []

add_friend_lem_example :
    add_friend true (record ann { username = "bob" }) (idle friends "me") ≡ none
unfolding lookup
add_friend_lem_example = add_friend_lem friends "me" true (record ann { username = "bob" })
