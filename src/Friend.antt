-- ===== src/Friend.antt =====
-- internal/friend: the friend list, the cache of their states, and the blacklist.
pub mod Roster
pub mod Status
pub mod Blacklist
