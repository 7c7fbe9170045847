-- ===== src/Cache/Lookup.antt =====
-- mania/src/core/operation/cache_op.rs: uin2uid and uid2uin, from the cache or from the server.
use mania.Base.{ℕ, List, [], Option, some, none, if◌then◌else◌}
use mania.Base.Fault.{Result, ok, err}
use mania.Base.Map.{get, contains_key, is_empty_map, same_text, number_key, text_key}
use mania.Cache.{Cache, CacheMode, full, half, uncached}
use mania.Cache.Fetch.{
  is_full, find, refresh_friends_cache, refresh_group_members_cache, fast_fetch_friends_uid,
  fast_fetch_friends_uin, fast_fetch_group_members_uid, fast_fetch_group_members_uin, ok_or,
  uid_of_member, uin_of_member,
}
use mania.Cache.Task.{Task, World, Await, ready, panicked, waiting, ◌>>=◌, ◌>>◌, pure, load, unwrap}
use mania.Entity.{BotFriend, BotGroupMember}
use mania.Errors.{ManiaError}

-- `.as_ref().and_then(|m| m.get(..))`
abbrev pub and_then {ℓ κ} : {A : Type ℓ} {B : Type κ} → (A → Option B) → Option A → Option B
and_then f none = none
and_then f (some a) = f a

-- The members of a group that is in the cache.
unfoldable pub members_within_cache : ℕ → Task (List BotGroupMember)
unfolding get
members_within_cache group_id = do
  cache ← load
  groups ← unwrap cache.cached_group_members
  ok_or "Group not found" (get groups group_id)

unfoldable pub uid_without_map : ℕ → Option ℕ → Task (List ℕ)
unfolding members_within_cache get
uid_without_map uin (some group_id) = do
  group_members ← members_within_cache group_id
  ok_or "Member not found" (uid_of_member uin group_members)
uid_without_map uin none = do
  cache ← load
  friends ← unwrap cache.cached_friends
  friend ← ok_or "Friend not found" (get friends uin)
  pure friend.uid

-- What is found at once, or else in the rest.
unfoldable pub or_resolve : {A : Type 0} → Task A → Option A → Task A
or_resolve rest (some a) = pure a
or_resolve rest none = rest

unfoldable pub resolve_uin2uid_within_cache : ℕ → Option ℕ → Task (List ℕ)
unfolding uid_without_map get or_resolve
resolve_uin2uid_within_cache uin group_uin = do
  cache ← load
  or_resolve (uid_without_map uin group_uin) (and_then (λ m. get m uin) cache.uin2uid)

abbrev pub find_uid : List ℕ → List (ℕ × BotFriend) → Option (ℕ × BotFriend)
find_uid uid = find λ entry. same_text entry.1.uid uid

-- The entries of a `DashMap` come in no fixed order: which of several friends with one uid is found
-- is not determined, and here it is the first.
unfoldable pub uin_without_map : List ℕ → Option ℕ → Task ℕ
unfolding members_within_cache
uin_without_map uid (some group_id) = do
  group_members ← members_within_cache group_id
  ok_or "Member not found" (uin_of_member uid group_members)
uin_without_map uid none = do
  cache ← load
  friends ← unwrap cache.cached_friends
  entry ← ok_or "Friend not found" (find_uid uid friends)
  pure entry.0

unfoldable pub resolve_uid2uin_within_cache : List ℕ → Option ℕ → Task ℕ
unfolding uin_without_map get or_resolve
resolve_uid2uin_within_cache uid group_uin = do
  cache ← load
  or_resolve (uin_without_map uid group_uin) (and_then (λ m. get m uid) cache.uid2uin)

-- In `Full` mode the friends are fetched where the map that `select` names is empty.
unfoldable pub refresh_if_empty :
    {K V : Type 0} → (Cache → Option (List (K × V))) → CacheMode → Task (Unit {0})
unfolding refresh_friends_cache
refresh_if_empty select mode =
    if is_full mode
    then (do
      cache ← load
      m ← unwrap (select cache)
      if is_empty_map m then refresh_friends_cache else pure tt)
    else pure tt

unfoldable pub refresh_group_if_missing : Option ℕ → Task (Unit {0})
unfolding contains_key refresh_group_members_cache
refresh_group_if_missing none = pure tt
refresh_group_if_missing (some group_uin) = do
  cache ← load
  groups ← unwrap cache.cached_group_members
  if contains_key groups group_uin then pure tt else refresh_group_members_cache group_uin

unfoldable pub uin2uid_cached : CacheMode → ℕ → Option ℕ → Task (List ℕ)
unfolding refresh_if_empty refresh_group_if_missing resolve_uin2uid_within_cache
uin2uid_cached mode uin group_uin = do
  refresh_if_empty (λ cache. cache.uin2uid) mode
  refresh_group_if_missing group_uin
  resolve_uin2uid_within_cache uin group_uin

unfoldable pub uin2uid_in_mode : CacheMode → ℕ → Option ℕ → Task (List ℕ)
unfolding uin2uid_cached fast_fetch_friends_uid fast_fetch_group_members_uid
uin2uid_in_mode full uin group_uin = uin2uid_cached full uin group_uin
uin2uid_in_mode half uin group_uin = uin2uid_cached half uin group_uin
uin2uid_in_mode uncached uin (some group_uin) = fast_fetch_group_members_uid uin group_uin
uin2uid_in_mode uncached uin none = fast_fetch_friends_uid uin

unfoldable pub uin2uid : ℕ → Option ℕ → Task (List ℕ)
unfolding uin2uid_in_mode
uin2uid uin group_uin = do cache ← load; uin2uid_in_mode cache.cache_mode uin group_uin

unfoldable pub uid2uin_cached : CacheMode → List ℕ → Option ℕ → Task ℕ
unfolding refresh_if_empty refresh_group_if_missing resolve_uid2uin_within_cache
uid2uin_cached mode uid group_uin = do
  refresh_if_empty (λ cache. cache.uid2uin) mode
  refresh_group_if_missing group_uin
  resolve_uid2uin_within_cache uid group_uin

unfoldable pub uid2uin_in_mode : CacheMode → List ℕ → Option ℕ → Task ℕ
unfolding uid2uin_cached fast_fetch_friends_uin fast_fetch_group_members_uin
uid2uin_in_mode full uid group_uin = uid2uin_cached full uid group_uin
uid2uin_in_mode half uid group_uin = uid2uin_cached half uid group_uin
uid2uin_in_mode uncached uid (some group_uin) = fast_fetch_group_members_uin uid group_uin
uid2uin_in_mode uncached uid none = fast_fetch_friends_uin uid

unfoldable pub uid2uin : List ℕ → Option ℕ → Task ℕ
unfolding uid2uin_in_mode
uid2uin uid group_uin = do cache ← load; uid2uin_in_mode cache.cache_mode uid group_uin

-- `.unwrap_or_else(..)`: an error becomes a value, and what was stored before it stays.
abbrev pub or_default :
    {A : Type 0} → A → Await (Result ManiaError A × World) → Await (Result ManiaError A × World)
or_default a (ready (ok b, w)) = ready (ok b, w)
or_default a (ready (err e, w)) = ready (ok a, w)
or_default a panicked = panicked
or_default a waiting = waiting

unfoldable pub uin2uid_fast : ℕ → Option ℕ → Task (List ℕ)
unfolding uin2uid
uin2uid_fast uin group_uin w = or_default [] (uin2uid uin group_uin w)

unfoldable pub uid2uin_fast : List ℕ → Option ℕ → Task ℕ
unfolding uid2uin
uid2uin_fast uid group_uin w = or_default 0 (uid2uin uid group_uin w)
