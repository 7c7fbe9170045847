-- ===== src/Cache/Stores.antt =====
-- mania/src/core/operation/cache_op.rs: what is stored keeps the maps of the mode.
use mania.Base.{ℕ, List, [], ◌∷◌, ◌∙◌, refl, Option, some, none}
use mania.Base.Fault.{Result, ok, err}
use mania.Base.Map.{put, number_key, text_key}
use mania.Cache.{Cache, CacheMode, full, half, uncached, new_cache, insert_uin_uid}
use mania.Cache.Fetch.{
  insert_if_full, store_friends, with_groups, collect_friends, set_friends, set_members,
  insert_each, Stored, group_of, insert_each_if_full, named,
}
use mania.Cache.Fits.{Fits, is_some-in_map, Keeps}
use mania.Entity.{BotFriend, BotFriendGroup, BotGroupMember}
use mania.Errors.{ManiaError}

pub new_cache-Fits : (mode : CacheMode) → Fits mode (new_cache mode)
unfolding Fits new_cache
new_cache-Fits full = (refl, (refl, refl, refl, refl))
new_cache-Fits half = (refl, (refl, refl))
new_cache-Fits uncached = (refl, tt)

insert_uin_uid-Fits :
    (mode : CacheMode) (uin : ℕ) (uid : List ℕ) (cache : Cache)
    → Fits mode cache
    → Fits mode (insert_uin_uid uin uid cache)
unfolding Fits insert_uin_uid
insert_uin_uid-Fits full uin uid cache (m, (a, b, c, d)) =
    (m, (is_some-in_map _ cache.uin2uid ∙ a, is_some-in_map _ cache.uid2uin ∙ b, c, d))
insert_uin_uid-Fits half uin uid cache fits = fits
insert_uin_uid-Fits uncached uin uid cache fits = fits

insert_if_full-Fits :
    (mode m : CacheMode) (uin : ℕ) (uid : List ℕ) (cache : Cache)
    → Fits mode cache
    → Fits mode (insert_if_full m uin uid cache)
insert_if_full-Fits mode full uin uid cache fits = insert_uin_uid-Fits mode uin uid cache fits
insert_if_full-Fits mode half uin uid cache fits = fits
insert_if_full-Fits mode uncached uin uid cache fits = fits

insert_each-Fits :
    (mode : CacheMode) (members : List BotGroupMember) (cache : Cache)
    → Fits mode cache
    → Fits mode (insert_each members cache)
unfolding insert_each
insert_each-Fits mode [] cache fits = fits
insert_each-Fits mode (bgm ∷ members) cache fits =
    insert_each-Fits mode members _ (insert_uin_uid-Fits mode bgm.uin bgm.uid cache fits)

pub set_friends-Fits :
    (mode : CacheMode) (friends : List (ℕ × BotFriend)) (cache : Cache)
    → Fits mode cache
    → Fits mode (set_friends friends cache)
unfolding Fits
set_friends-Fits full friends cache (m, (a, b, c, d)) =
    (m, (a, b, is_some-in_map _ cache.cached_friends ∙ c, d))
set_friends-Fits half friends cache (m, (c, d)) =
    (m, (is_some-in_map _ cache.cached_friends ∙ c, d))
set_friends-Fits uncached friends cache fits = fits

pub set_members-Fits :
    (mode : CacheMode) (group_uin : ℕ) (members : List BotGroupMember) (cache : Cache)
    → Fits mode cache
    → Fits mode (set_members group_uin members cache)
unfolding Fits set_members
set_members-Fits full group_uin members cache (m, (a, b, c, d)) =
    (m, (a, b, c, is_some-in_map _ cache.cached_group_members ∙ d))
set_members-Fits half group_uin members cache (m, (c, d)) =
    (m, (c, is_some-in_map _ cache.cached_group_members ∙ d))
set_members-Fits uncached group_uin members cache fits = fits

group_of-Fits :
    (mode : CacheMode) (next : BotFriendGroup → Stored) (cache : Cache)
    (group : Option BotFriendGroup)
    → Fits mode cache
    → ((g : BotFriendGroup) → Fits mode (next g).1)
    → Fits mode (group_of next cache group).1
unfolding group_of
group_of-Fits mode next cache none fits h = fits
group_of-Fits mode next cache (some group) fits h = h group

store_friends-Fits :
    (mode : CacheMode) (groups : List (ℕ × List ℕ)) (page : List BotFriend)
    (friends : List (ℕ × BotFriend)) (cache : Cache)
    → Fits mode cache
    → Fits mode (store_friends groups page friends cache).1
unfolding store_friends
store_friends-Fits mode groups [] friends cache fits = fits
store_friends-Fits mode groups (friend ∷ rest) friends cache fits =
    group_of-Fits mode _ cache friend.group fits λ group.
      store_friends-Fits mode groups rest (put friend.uin (named groups group friend) friends)
        (insert_if_full cache.cache_mode friend.uin friend.uid cache)
        (insert_if_full-Fits mode cache.cache_mode friend.uin friend.uid cache fits)

pub insert_each_if_full-Fits :
    (mode : CacheMode) (members : List BotGroupMember) (cache : Cache)
    → Fits mode cache
    → Fits mode (insert_each_if_full cache.cache_mode members cache)
unfolding insert_each_if_full
insert_each_if_full-Fits mode members cache fits = each cache.cache_mode
  where
    each : (m : CacheMode) → Fits mode (insert_each_if_full m members cache)
    each full = insert_each-Fits mode members cache fits
    each half = fits
    each uncached = fits

with_groups-Fits :
    (mode : CacheMode) (groups : List (ℕ × List ℕ))
    (r : Result ManiaError (List (ℕ × BotFriend)) × Cache)
    → Fits mode r.1
    → Fits mode (with_groups groups r).1
with_groups-Fits mode groups (ok friends, cache) fits = fits
with_groups-Fits mode groups (err e, cache) fits = fits

pub collect_friends-Keeps : (mode : CacheMode) → Keeps mode collect_friends
unfolding Keeps collect_friends
collect_friends-Keeps mode (friends, groups) page cache fits =
    with_groups-Fits mode _ _ (store_friends-Fits mode _ page.friends friends cache fits)
