-- ===== src/Cache/Safety.antt =====
-- mania/src/core/operation/cache_op.rs: no `unwrap` of a map of the cache fails in any mode.
use mania.Cache.Searches.{
  search_friends-Good, search_group-Good, resolve_uin2uid-Good, resolve_uid2uin-Good,
  refresh_group_if_missing-Good,
}
use mania.Base.{
  ℕ, List, [], ◌≡◌, subst, sym, refl, Option, some, none, Bool, true, false, if◌then◌else◌,
}
use mania.Base.Fault.{ok}
use mania.Base.Map.{is_some, contains_key, number_key, text_key, is_empty_map}
use mania.Cache.{Cache, CacheMode, full, half, uncached}
use mania.Cache.Fetch.{
  is_full, is_uncached, refresh_friends_cache, refresh_group_members_cache, uid_of_friend,
  uin_of_friend, uid_of_member, uin_of_member, fast_fetch_friends_uid, fast_fetch_friends_uin,
  fast_fetch_group_members_uid, fast_fetch_group_members_uin,
}
use mania.Cache.Fits.{
  Fits, Safe, Good, >>=-Good, >>-Good, unwrap-Good, return-Good, load-Good, if-Good, Keeps,
  iter_fetch_friends-Good, iter_fetch_group-Good,
}
use mania.Cache.Lookup.{
  refresh_if_empty, refresh_group_if_missing, uin2uid_cached, uin2uid_in_mode, uin2uid,
  uid2uin_cached, uid2uin_in_mode, uid2uin,
}
use mania.Cache.Maybe.{
  store_page, fetch_maybe_cached_group_members, store_friends_page, refresh_friends_if_missing,
  fetch_maybe_cached_friends, friends_from_cache, friends_from_server, members_from_cache,
  members_from_server, refresh_if_asked,
}
use mania.Cache.Refresh.{
  refresh_friends_cache-Good, refresh_group_members_cache-Good, guard-Good, with_friends,
  with_members,
}
use mania.Cache.Paging.{iter_fetch_friends, iter_fetch_group}
use mania.Cache.Task.{Task, ◌>>=◌, ◌>>◌, pure, load, unwrap}
use mania.Entity.{BotFriend, BotGroupMember}
use mania.Cache.Task.{World}

uin_map :
    (mode : CacheMode) (cache : Cache)
    → Fits mode cache
    → is_full mode ≡ true
    → is_some cache.uin2uid ≡ true
unfolding Fits
uin_map full cache (_, (a, b, c, d)) f = a
uin_map half cache fits f = cc (f)
uin_map uncached cache fits f = cc (f)

uid_map :
    (mode : CacheMode) (cache : Cache)
    → Fits mode cache
    → is_full mode ≡ true
    → is_some cache.uid2uin ≡ true
unfolding Fits
uid_map full cache (_, (a, b, c, d)) f = b
uid_map half cache fits f = cc (f)
uid_map uncached cache fits f = cc (f)

refresh_if_empty-Good :
    (mode : CacheMode) {K V : Type 0} (select : Cache → Option (List (K × V)))
    → ((cache : Cache) → Fits mode cache → is_full mode ≡ true → is_some (select cache) ≡ true)
    → Good mode (refresh_if_empty select mode)
unfolding refresh_if_empty
refresh_if_empty-Good full select h =
    load-Good full
      (λ cache.
        unwrap (select cache) >>= λ m. if is_empty_map m then refresh_friends_cache else pure tt)
      λ cache fits.
        unwrap-Good full (select cache)
          (λ m. if is_empty_map m then refresh_friends_cache else pure tt) (h cache fits refl)
          λ m.
            if-Good full (is_empty_map m) refresh_friends_cache (pure tt)
              (refresh_friends_cache-Good full) (λ _. return-Good full (ok tt))
refresh_if_empty-Good half select h = return-Good half (ok tt)
refresh_if_empty-Good uncached select h = return-Good uncached (ok tt)

module _ (mode : CacheMode) (cached : is_uncached mode ≡ false) (group_uin : Option ℕ) where
  prepared-Good :
      {A K V : Type 0} (select : Cache → Option (List (K × V))) (m : Task A)
      → ((cache : Cache) → Fits mode cache → is_full mode ≡ true → is_some (select cache) ≡ true)
      → Good mode m
      → Good mode (refresh_if_empty select mode >> (refresh_group_if_missing group_uin >> m))
  prepared-Good select m h g =
      >>-Good mode (refresh_if_empty select mode) (refresh_group_if_missing group_uin >> m)
        (refresh_if_empty-Good mode select h)
        (>>-Good mode (refresh_group_if_missing group_uin) m
          (refresh_group_if_missing-Good mode cached group_uin) g)

  uin2uid_cached-Good : (uin : ℕ) → Good mode (uin2uid_cached mode uin group_uin)
  unfolding uin2uid_cached
  uin2uid_cached-Good uin =
      prepared-Good (λ cache. cache.uin2uid) _ (uin_map mode)
        (resolve_uin2uid-Good mode cached uin group_uin)

  uid2uin_cached-Good : (uid : List ℕ) → Good mode (uid2uin_cached mode uid group_uin)
  unfolding uid2uin_cached
  uid2uin_cached-Good uid =
      prepared-Good (λ cache. cache.uid2uin) _ (uid_map mode)
        (resolve_uid2uin-Good mode cached uid group_uin)

-- A task that reads the mode first runs in the mode that the cache has.
in_mode-Good :
    {A : Type 0} (mode : CacheMode) (f : CacheMode → Task A)
    → Good mode (f mode)
    → Good mode (load >>= λ cache. f cache.cache_mode)
unfolding Fits
in_mode-Good mode f g =
    load-Good mode (λ cache. f cache.cache_mode)
      λ cache fits. subst (λ m. Good mode (f m)) (sym fits.0) g

uin2uid_in_mode-Good :
    (mode : CacheMode) (uin : ℕ) (group_uin : Option ℕ)
    → Good mode (uin2uid_in_mode mode uin group_uin)
unfolding uin2uid_in_mode fast_fetch_friends_uid fast_fetch_group_members_uid
uin2uid_in_mode-Good full uin group_uin = uin2uid_cached-Good full refl group_uin uin
uin2uid_in_mode-Good half uin group_uin = uin2uid_cached-Good half refl group_uin uin
uin2uid_in_mode-Good uncached uin (some group_uin) =
    search_group-Good uncached group_uin (λ page. uid_of_member uin page.group_members)
      "Member not found"
uin2uid_in_mode-Good uncached uin none =
    search_friends-Good uncached (uid_of_friend uin) "Friend not found"

uid2uin_in_mode-Good :
    (mode : CacheMode) (uid : List ℕ) (group_uin : Option ℕ)
    → Good mode (uid2uin_in_mode mode uid group_uin)
unfolding uid2uin_in_mode fast_fetch_friends_uin fast_fetch_group_members_uin
uid2uin_in_mode-Good full uid group_uin = uid2uin_cached-Good full refl group_uin uid
uid2uin_in_mode-Good half uid group_uin = uid2uin_cached-Good half refl group_uin uid
uid2uin_in_mode-Good uncached uid (some group_uin) =
    search_group-Good uncached group_uin (λ page. uin_of_member uid page.group_members)
      "Member not found"
uid2uin_in_mode-Good uncached uid none =
    search_friends-Good uncached (uin_of_friend uid) "Friend not found"

module _ (mode : CacheMode) where
  refresh_if_asked-Good :
      (asked : Bool) (refresh : Task (Unit {0}))
      → Good mode refresh
      → Good mode (refresh_if_asked asked refresh)
  unfolding refresh_if_asked
  refresh_if_asked-Good asked refresh g =
      if-Good mode asked refresh (pure tt) g (λ _. return-Good mode (ok tt))

  store_page-Keeps : (group_uin : ℕ) → Keeps mode (store_page group_uin)
  unfolding Keeps store_page
  store_page-Keeps group_uin groups page cache fits = fits

  store_friends_page-Keeps : Keeps mode store_friends_page
  unfolding Keeps store_friends_page
  store_friends_page-Keeps friends page cache fits = fits

  members_from_cache-Good :
      (group_uin : ℕ) (process_fn : List (ℕ × List BotGroupMember) → List BotGroupMember)
      (refresh_cache : Bool)
      → is_uncached mode ≡ false
      → Good mode (members_from_cache group_uin process_fn refresh_cache)
  unfolding members_from_cache
  members_from_cache-Good group_uin process_fn refresh_cache cached =
      let last = λ (groups : List (ℕ × List BotGroupMember)). pure (process_fn groups) in
      >>-Good mode (refresh_if_asked refresh_cache (refresh_group_members_cache group_uin)) _
        (refresh_if_asked-Good refresh_cache (refresh_group_members_cache group_uin)
          (refresh_group_members_cache-Good mode group_uin))
        (>>-Good mode (refresh_group_if_missing (some group_uin)) _
          (refresh_group_if_missing-Good mode cached (some group_uin))
          (with_members mode last cached λ groups. return-Good mode (ok (process_fn groups))))

  members_from_server-Good :
      (group_uin : ℕ) (process_fn : List (ℕ × List BotGroupMember) → List BotGroupMember)
      → Good mode (members_from_server group_uin process_fn)
  unfolding members_from_server
  members_from_server-Good group_uin process_fn =
      >>=-Good mode (iter_fetch_group group_uin (store_page group_uin) [])
        (λ fetched. pure (process_fn fetched.1))
        (iter_fetch_group-Good mode group_uin (store_page group_uin) []
          (store_page-Keeps group_uin))
        (λ fetched. return-Good mode (ok (process_fn fetched.1)))

  refresh_friends_if_missing-Good :
      (friend_uin : Option ℕ)
      → is_uncached mode ≡ false
      → Good mode (refresh_friends_if_missing friend_uin)
  unfolding refresh_friends_if_missing
  refresh_friends_if_missing-Good none cached = return-Good mode (ok tt)
  refresh_friends_if_missing-Good (some friend_uin) cached =
      with_friends mode
        (λ friends. if contains_key friends friend_uin then pure tt else refresh_friends_cache)
        cached
        λ friends.
          if-Good mode (contains_key friends friend_uin) (pure tt) refresh_friends_cache
            (return-Good mode (ok tt)) (λ _. refresh_friends_cache-Good mode)

  friends_from_cache-Good :
      (friend_uin : Option ℕ) (process_fn : List (ℕ × BotFriend) → List BotFriend)
      (refresh_cache : Bool)
      → is_uncached mode ≡ false
      → Good mode (friends_from_cache friend_uin process_fn refresh_cache)
  unfolding friends_from_cache
  friends_from_cache-Good friend_uin process_fn refresh_cache cached =
      let last = λ (friends : List (ℕ × BotFriend)). pure (process_fn friends) in
      >>-Good mode (refresh_if_asked refresh_cache refresh_friends_cache) _
        (refresh_if_asked-Good refresh_cache refresh_friends_cache
          (refresh_friends_cache-Good mode))
        (>>-Good mode (refresh_friends_if_missing friend_uin) _
          (refresh_friends_if_missing-Good friend_uin cached)
          (with_friends mode last cached λ friends. return-Good mode (ok (process_fn friends))))

  friends_from_server-Good :
      (process_fn : List (ℕ × BotFriend) → List BotFriend)
      → Good mode (friends_from_server process_fn)
  unfolding friends_from_server
  friends_from_server-Good process_fn =
      >>=-Good mode (iter_fetch_friends store_friends_page [])
        (λ fetched. pure (process_fn fetched.1))
        (iter_fetch_friends-Good mode store_friends_page [] store_friends_page-Keeps)
        (λ fetched. return-Good mode (ok (process_fn fetched.1)))

-- Where the cache has the maps of its mode, none of the operations panics, whatever the server
-- answers, and each leaves such a cache in the same mode, also where it returns an error.
pub operations-Safe :
    (mode : CacheMode) (w : World) (uin : ℕ) (uid : List ℕ) (group_uin : Option ℕ) (group : ℕ)
    (of_members : List (ℕ × List BotGroupMember) → List BotGroupMember)
    (of_friends : List (ℕ × BotFriend) → List BotFriend) (refresh_cache : Bool)
    → Fits mode w.cache
    → Safe mode (uin2uid uin group_uin w)
      × Safe mode (uid2uin uid group_uin w)
      × Safe mode (fetch_maybe_cached_group_members group of_members refresh_cache w)
      × Safe mode (fetch_maybe_cached_friends group_uin of_friends refresh_cache w)
unfolding Good uin2uid uid2uin fetch_maybe_cached_group_members fetch_maybe_cached_friends
operations-Safe mode w uin uid group_uin group of_members of_friends refresh_cache fits = (
  in_mode-Good mode (λ m. uin2uid_in_mode m uin group_uin) (uin2uid_in_mode-Good mode uin group_uin)
      w fits,
  in_mode-Good mode (λ m. uid2uin_in_mode m uid group_uin) (uid2uin_in_mode-Good mode uid group_uin)
      w fits,
  guard-Good mode (members_from_server group of_members)
      (members_from_cache group of_members refresh_cache)
      (members_from_server-Good mode group of_members)
      (members_from_cache-Good mode group of_members refresh_cache) w fits,
  guard-Good mode (friends_from_server of_friends)
      (friends_from_cache group_uin of_friends refresh_cache)
      (friends_from_server-Good mode of_friends)
      (friends_from_cache-Good mode group_uin of_friends refresh_cache) w fits,
)
