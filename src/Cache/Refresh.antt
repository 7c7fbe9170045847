-- ===== src/Cache/Refresh.antt =====
-- mania/src/core/operation/cache_op.rs: refreshing keeps the maps of the mode.
use mania.Base.{ℕ, List, [], ◌≡◌, ◌∙◌, ap, sym, true, false, if◌then◌else◌}
use mania.Base.Fault.{ok}
use mania.Base.Map.{is_some, number_key, text_key}
use mania.Cache.{Cache, CacheMode, full, half, uncached}
use mania.Cache.Fetch.{
  is_uncached, collect_friends, set_friends, set_members, refresh_friends_cache, collect_members,
  refresh_group_members_cache, refill_friends, refill_group_members, store_members,
  insert_each_if_full,
}
use mania.Cache.Fits.{
  Fits, Good, >>=-Good, >>-Good, unwrap-Good, return-Good, load-Good, if-Good, change-Good, Keeps,
  iter_fetch_friends-Good, iter_fetch_group-Good,
}
use mania.Cache.Stores.{
  insert_each_if_full-Fits, set_friends-Fits, set_members-Fits, collect_friends-Keeps,
}
use mania.Cache.Paging.{iter_fetch_friends, iter_fetch_group}
use mania.Cache.Task.{Task, ◌>>=◌, pure, load, unwrap, change}
use mania.Entity.{BotFriend, BotGroupMember}

-- What a mode other than `None` has.
pub has_friends :
    (mode : CacheMode) (cache : Cache)
    → is_uncached mode ≡ false
    → Fits mode cache
    → is_some cache.cached_friends ≡ true
unfolding Fits
has_friends full cache u (_, (a, b, c, d)) = c
has_friends half cache u (_, (c, d)) = c
has_friends uncached cache u fits = cc (u)

pub has_members :
    (mode : CacheMode) (cache : Cache)
    → is_uncached mode ≡ false
    → Fits mode cache
    → is_some cache.cached_group_members ≡ true
unfolding Fits
has_members full cache u (_, (a, b, c, d)) = d
has_members half cache u (_, (c, d)) = d
has_members uncached cache u fits = cc (u)

cached_in :
    (mode : CacheMode) (cache : Cache)
    → Fits mode cache
    → is_uncached cache.cache_mode ≡ false
    → is_uncached mode ≡ false
unfolding Fits
cached_in mode cache (m, _) u = sym (ap is_uncached m) ∙ u

-- What holds of a task behind a guard holds of a task that reads the mode first.
pub guard-Good :
    {A : Type 0} (mode : CacheMode) (m : Task A) (k : Task A)
    → Good mode m
    → (is_uncached mode ≡ false → Good mode k)
    → Good mode (load >>= λ cache. if is_uncached cache.cache_mode then m else k)
guard-Good mode m k g h =
    load-Good mode (λ cache. if is_uncached cache.cache_mode then m else k)
      λ cache fits.
        if-Good mode (is_uncached cache.cache_mode) m k g λ u. h (cached_in mode cache fits u)

module _ (mode : CacheMode) where
  pub with_friends :
      {A : Type 0} (f : List (ℕ × BotFriend) → Task A)
      → is_uncached mode ≡ false
      → ((m : List (ℕ × BotFriend)) → Good mode (f m))
      → Good mode (load >>= λ cache. unwrap cache.cached_friends >>= f)
  with_friends f u h =
      load-Good mode (λ cache. unwrap cache.cached_friends >>= f)
        λ cache fits. unwrap-Good mode cache.cached_friends f (has_friends mode cache u fits) h

  pub with_members :
      {A : Type 0} (f : List (ℕ × List BotGroupMember) → Task A)
      → is_uncached mode ≡ false
      → ((m : List (ℕ × List BotGroupMember)) → Good mode (f m))
      → Good mode (load >>= λ cache. unwrap cache.cached_group_members >>= f)
  with_members f u h =
      load-Good mode (λ cache. unwrap cache.cached_group_members >>= f)
        λ cache fits.
          unwrap-Good mode cache.cached_group_members f (has_members mode cache u fits) h

  refill_friends-Good : is_uncached mode ≡ false → Good mode refill_friends
  unfolding refill_friends
  refill_friends-Good u =
      >>=-Good mode (iter_fetch_friends collect_friends ([], [])) _
        (iter_fetch_friends-Good mode collect_friends ([], []) (collect_friends-Keeps mode))
        λ fetched.
          with_friends (λ _. change (set_friends fetched.1.0)) u
            λ _. change-Good mode _ (set_friends-Fits mode fetched.1.0)

  pub refresh_friends_cache-Good : Good mode refresh_friends_cache
  unfolding refresh_friends_cache
  refresh_friends_cache-Good =
      guard-Good mode (pure tt) refill_friends (return-Good mode (ok tt)) refill_friends-Good

  collect_members-Keeps : Keeps mode collect_members
  unfolding Keeps collect_members
  collect_members-Keeps members page cache fits = fits

  store_members-Good :
      (group_uin : ℕ) (members : List BotGroupMember)
      → is_uncached mode ≡ false
      → Good mode (store_members group_uin members)
  unfolding store_members set_members insert_each_if_full
  store_members-Good group_uin members u =
      >>-Good mode (change (λ cache. insert_each_if_full cache.cache_mode members cache)) _
        (change-Good mode _ (insert_each_if_full-Fits mode members))
        (with_members (λ _. change (set_members group_uin members)) u
          λ _. change-Good mode _ (set_members-Fits mode group_uin members))

  refill_group_members-Good :
      (group_uin : ℕ) → is_uncached mode ≡ false → Good mode (refill_group_members group_uin)
  unfolding refill_group_members
  refill_group_members-Good group_uin u =
      >>=-Good mode (iter_fetch_group group_uin collect_members [])
        (λ fetched. store_members group_uin fetched.1)
        (iter_fetch_group-Good mode group_uin collect_members [] collect_members-Keeps)
        (λ fetched. store_members-Good group_uin fetched.1 u)

  pub refresh_group_members_cache-Good :
      (group_uin : ℕ) → Good mode (refresh_group_members_cache group_uin)
  unfolding refresh_group_members_cache
  refresh_group_members_cache-Good group_uin =
      guard-Good mode (pure tt) (refill_group_members group_uin) (return-Good mode (ok tt))
        (refill_group_members-Good group_uin)
