-- ===== src/Cache/Searches.antt =====
-- mania/src/core/operation/cache_op.rs: searches keep the maps of the mode.
use mania.Base.{ℕ, List, ◌≡◌, Option, some, none, false, if◌then◌else◌}
use mania.Base.Fault.{ok}
use mania.Base.Map.{get, contains_key, number_key, text_key}
use mania.Cache.{CacheMode}
use mania.Cache.Fetch.{
  is_uncached, refresh_group_members_cache, ok_or, search, uid_of_member, uin_of_member,
}
use mania.Cache.Fits.{
  Good, >>=-Good, return-Good, load-Good, if-Good, Keeps, iter_fetch_friends-Good,
  iter_fetch_group-Good,
}
use mania.Cache.Lookup.{
  members_within_cache, uid_without_map, resolve_uin2uid_within_cache, uin_without_map,
  resolve_uid2uin_within_cache, refresh_group_if_missing, and_then, or_resolve, find_uid,
}
use mania.Cache.Refresh.{refresh_group_members_cache-Good, with_friends, with_members}
use mania.Cache.Paging.{iter_fetch_friends, iter_fetch_group}
use mania.Cache.Task.{Task, ◌>>=◌, pure, FriendsPage, MembersPage}
use Prim.Native.String.{String}

module _ (mode : CacheMode) where
  search-Keeps : {P T : Type 0} (look : P → Option T) → Keeps mode (search look)
  unfolding Keeps
  search-Keeps look s page cache fits = fits

  ok_or-Good : {A : Type 0} (text : String) (o : Option A) → Good mode (ok_or text o)
  ok_or-Good text none = return-Good mode _
  ok_or-Good text (some a) = return-Good mode _

  or_resolve-Good :
      {A : Type 0} (rest : Task A) (o : Option A) → Good mode rest → Good mode (or_resolve rest o)
  unfolding or_resolve
  or_resolve-Good rest (some a) g = return-Good mode (ok a)
  or_resolve-Good rest none g = g

  pub search_friends-Good :
      {T : Type 0} (look : FriendsPage → Option T) (text : String)
      → Good mode (iter_fetch_friends (search look) tt >>= λ res. ok_or text res.0)
  search_friends-Good look text =
      >>=-Good mode (iter_fetch_friends (search look) tt) (λ res. ok_or text res.0)
        (iter_fetch_friends-Good mode (search look) tt (search-Keeps look))
        (λ res. ok_or-Good text res.0)

  pub search_group-Good :
      {T : Type 0} (group_uin : ℕ) (look : MembersPage → Option T) (text : String)
      → Good mode (iter_fetch_group group_uin (search look) tt >>= λ res. ok_or text res.0)
  search_group-Good group_uin look text =
      >>=-Good mode (iter_fetch_group group_uin (search look) tt) (λ res. ok_or text res.0)
        (iter_fetch_group-Good mode group_uin (search look) tt (search-Keeps look))
        (λ res. ok_or-Good text res.0)

  module _ (cached : is_uncached mode ≡ false) where
    members_within_cache-Good : (group_id : ℕ) → Good mode (members_within_cache group_id)
    unfolding members_within_cache
    members_within_cache-Good group_id =
        with_members mode (λ groups. ok_or "Group not found" (get groups group_id)) cached
          λ groups. ok_or-Good "Group not found" (get groups group_id)

    uid_without_map-Good :
        (uin : ℕ) (group_uin : Option ℕ) → Good mode (uid_without_map uin group_uin)
    unfolding uid_without_map
    uid_without_map-Good uin (some group_id) =
        >>=-Good mode (members_within_cache group_id) _ (members_within_cache-Good group_id)
          λ members. ok_or-Good "Member not found" (uid_of_member uin members)
    uid_without_map-Good uin none =
        with_friends mode
          (λ friends. do friend ← ok_or "Friend not found" (get friends uin); pure friend.uid)
          cached
          λ friends.
            >>=-Good mode (ok_or "Friend not found" (get friends uin)) _
              (ok_or-Good "Friend not found" (get friends uin))
              λ friend. return-Good mode (ok friend.uid)

    pub resolve_uin2uid-Good :
        (uin : ℕ) (group_uin : Option ℕ) → Good mode (resolve_uin2uid_within_cache uin group_uin)
    unfolding resolve_uin2uid_within_cache
    resolve_uin2uid-Good uin group_uin =
        load-Good mode
          (λ cache.
            or_resolve (uid_without_map uin group_uin) (and_then (λ m. get m uin) cache.uin2uid))
          λ cache fits.
            or_resolve-Good _ (and_then (λ m. get m uin) cache.uin2uid)
              (uid_without_map-Good uin group_uin)

    uin_without_map-Good :
        (uid : List ℕ) (group_uin : Option ℕ) → Good mode (uin_without_map uid group_uin)
    unfolding uin_without_map
    uin_without_map-Good uid (some group_id) =
        >>=-Good mode (members_within_cache group_id) _ (members_within_cache-Good group_id)
          λ members. ok_or-Good "Member not found" (uin_of_member uid members)
    uin_without_map-Good uid none =
        with_friends mode
          (λ friends. do entry ← ok_or "Friend not found" (find_uid uid friends); pure entry.0)
          cached
          λ friends.
            >>=-Good mode (ok_or "Friend not found" (find_uid uid friends)) _
              (ok_or-Good "Friend not found" (find_uid uid friends))
              λ entry. return-Good mode (ok entry.0)

    pub resolve_uid2uin-Good :
        (uid : List ℕ) (group_uin : Option ℕ)
        → Good mode (resolve_uid2uin_within_cache uid group_uin)
    unfolding resolve_uid2uin_within_cache
    resolve_uid2uin-Good uid group_uin =
        load-Good mode
          (λ cache.
            or_resolve (uin_without_map uid group_uin) (and_then (λ m. get m uid) cache.uid2uin))
          λ cache fits.
            or_resolve-Good _ (and_then (λ m. get m uid) cache.uid2uin)
              (uin_without_map-Good uid group_uin)

    pub refresh_group_if_missing-Good :
        (group_uin : Option ℕ) → Good mode (refresh_group_if_missing group_uin)
    unfolding refresh_group_if_missing
    refresh_group_if_missing-Good none = return-Good mode (ok tt)
    refresh_group_if_missing-Good (some group_uin) =
        with_members mode
          (λ groups.
            if contains_key groups group_uin
            then pure tt
            else refresh_group_members_cache group_uin)
          cached
          λ groups.
            if-Good mode (contains_key groups group_uin) (pure tt)
              (refresh_group_members_cache group_uin) (return-Good mode (ok tt))
              (λ _. refresh_group_members_cache-Good mode group_uin)
