-- ===== src/Cache.antt =====
-- mania/src/core/cache.rs: the cache and its three modes. A `DashMap` is an association list.
pub mod Task
pub mod Paging
pub mod Fetch
pub mod Lookup
pub mod Maybe
pub mod Fits
pub mod Stores
pub mod Refresh
pub mod Searches
pub mod Safety
pub mod Pages
pub mod Groups
pub mod Agree
pub mod LastPage
mod Tests
use mania.Base.{ℕ, List, [], Option, some, none}
use mania.Base.Map.{put, number_key, text_key}
use mania.Entity.{BotFriend, BotGroupMember}

pub data CacheMode : Type 0 where
  full : CacheMode
  half : CacheMode
  uncached : CacheMode

pub record Cache : Type 0 where
  pub cache_mode : CacheMode
  pub uin2uid : Option (List (ℕ × List ℕ))
  pub uid2uin : Option (List (List ℕ × ℕ))
  pub cached_friends : Option (List (ℕ × BotFriend))
  pub cached_group_members : Option (List (ℕ × List BotGroupMember))

unfoldable pub new_cache : CacheMode → Cache
new_cache full = record {
  cache_mode = full;
  uin2uid = some [];
  uid2uin = some [];
  cached_friends = some [];
  cached_group_members = some [];
}
new_cache half = record {
  cache_mode = half;
  uin2uid = none;
  uid2uin = none;
  cached_friends = some [];
  cached_group_members = some [];
}
new_cache uncached = record {
  cache_mode = uncached;
  uin2uid = none;
  uid2uin = none;
  cached_friends = none;
  cached_group_members = none;
}

-- `.as_ref().map(..)` on a map that may be missing.
abbrev pub in_map {ℓ} : {M : Type ℓ} → (M → M) → Option M → Option M
in_map f none = none
in_map f (some m) = some (f m)

unfoldable pub insert_uin_uid : ℕ → List ℕ → Cache → Cache
insert_uin_uid uin uid cache = record cache {
  uin2uid = in_map (put uin uid) cache.uin2uid;
  uid2uin = in_map (put uid uin) cache.uid2uin;
}
