-- ===== src/Cache/Agree.antt =====
-- mania/src/core/operation/cache_op.rs: a refresh stores what the pages list, and what is found of a
-- group does not depend on the cache's mode.
use mania.Base.{ℕ, List, [], ◌∷◌, ◌++◌, ◌≡◌, ◌∙◌, ap, refl, Option, some, none, false, ◌==◌}
use mania.Base.Fault.{ok}
use mania.Base.Map.{contains_key, get-put, number_key, text_key, same_text}
use mania.Cache.{Cache, CacheMode, full, half, uncached, insert_uin_uid, new_cache}
use mania.Cache.Fetch.{
  is_uncached, insert_each, insert_each_if_full, set_members, store_members, refill_group_members,
  refresh_group_members_cache, uid_of_member, uin_of_member, fast_fetch_group_members_uid,
  fast_fetch_group_members_uin,
}
use mania.Cache.Lookup.{
  members_within_cache, uid_without_map, uin_without_map, or_resolve, resolve_uin2uid_within_cache,
  resolve_uid2uin_within_cache, refresh_if_empty, refresh_group_if_missing, uin2uid_cached,
  uin2uid_in_mode, uin2uid, uid2uin_cached, uid2uin_in_mode, uid2uin,
}
use mania.Cache.Pages.{Chained, asks}
use mania.Cache.Task.{
  ready, World, Task, Reply, MembersPage, Request, fetch_members, answer, resume, question, unwrap,
  change,
}
use mania.Entity.{BotGroupMember, BotFriend}
use mania.Cache.Groups.{
  members_of, next_token, replies_of, member_or_error, iter_fetch_group-collect_members,
  answer-search, answer-ok_or,
}

keeps_groups :
    (members : List BotGroupMember) (cache : Cache)
    → (insert_each members cache).cached_group_members ≡ cache.cached_group_members
unfolding insert_each insert_uin_uid
keeps_groups [] cache = refl
keeps_groups (bgm ∷ members) cache = keeps_groups members (insert_uin_uid bgm.uin bgm.uid cache)

keeps_groups_if_full :
    (mode : CacheMode) (members : List BotGroupMember) (cache : Cache)
    → (insert_each_if_full mode members cache).cached_group_members ≡ cache.cached_group_members
unfolding insert_each_if_full
keeps_groups_if_full full members cache = keeps_groups members cache
keeps_groups_if_full half members cache = refl
keeps_groups_if_full uncached members cache = refl

unwrap_found :
    {A B : Type 0} (o : Option A) (a : A) (f : A → Task B) (w : World)
    → o ≡ some a
    → resume (question f) (unwrap o w) ≡ f a w
unwrap_found none a f w e = cc (e)
unwrap_found (some b) a f w e = let same : b ≡ a = cc (e) in ap (λ c. f c w) same

store_members_lem :
    (group_uin : ℕ) (members : List BotGroupMember) (groups : List (ℕ × List BotGroupMember))
    (w : World)
    → w.cache.cached_group_members ≡ some groups
    → store_members group_uin members w
      ≡ ready (
        ok tt,
        record w {
          cache =
              set_members group_uin members
                (insert_each_if_full w.cache.cache_mode members w.cache);
        },
      )
unfolding store_members
store_members_lem group_uin members groups w e =
    unwrap_found _ groups (λ _. change (set_members group_uin members)) _
      (keeps_groups_if_full w.cache.cache_mode members w.cache ∙ e)

pub refresh_group_members_cache-Stores :
    (group_uin : ℕ) (cache : Cache) (groups : List (ℕ × List BotGroupMember)) (p : MembersPage)
    (ps : List MembersPage) (replies : List Reply) (sent : List Request)
    → is_uncached cache.cache_mode ≡ false
    → cache.cached_group_members ≡ some groups
    → Chained next_token p ps
    → refresh_group_members_cache group_uin
        (record { cache = cache; replies = replies_of p ps replies; sent = sent })
      ≡ ready (
        ok tt,
        record {
          cache =
              set_members group_uin
                (members_of (p ∷ ps))
                (insert_each_if_full cache.cache_mode (members_of (p ∷ ps)) cache);
          replies = replies;
          sent = sent ++ asks (fetch_members group_uin) next_token none p ps;
        },
      )
unfolding refresh_group_members_cache refill_group_members
refresh_group_members_cache-Stores group_uin cache groups p ps replies sent cached e chained =
    rw (cached, iter_fetch_group-collect_members group_uin p ps replies cache sent chained)
      (store_members_lem group_uin (members_of (p ∷ ps)) groups _ e)

abbrev pub half_cache : Option (List (ℕ × BotFriend)) → List (ℕ × List BotGroupMember) → Cache
half_cache friends groups = record {
  cache_mode = half;
  uin2uid = none;
  uid2uin = none;
  cached_friends = friends;
  cached_group_members = some groups;
}

module _ (group_uin : ℕ) (friends : Option (List (ℕ × BotFriend)))
    (groups : List (ℕ × List BotGroupMember)) where
  module _ (p : MembersPage) (ps : List MembersPage) (replies : List Reply) (sent : List Request)
      (missing : contains_key groups group_uin ≡ false) (chained : Chained next_token p ps) where
    abbrev asked : World
    asked = record {
      cache = half_cache friends groups;
      replies = replies_of p ps replies;
      sent = sent;
    }

    half_uid :
        (uin : ℕ)
        → answer (uin2uid uin (some group_uin) asked)
          ≡ ready (member_or_error (uid_of_member uin (members_of (p ∷ ps))))
    unfolding uin2uid uin2uid_in_mode uin2uid_cached refresh_if_empty refresh_group_if_missing
        resolve_uin2uid_within_cache uid_without_map or_resolve members_within_cache
        insert_each_if_full set_members
    half_uid uin =
        rw
          (
            missing,
            refresh_group_members_cache-Stores group_uin (half_cache friends groups) groups p ps
                replies sent refl refl chained,
          )
          (rw (get-put group_uin (members_of (p ∷ ps)) groups)
            (answer-ok_or (uid_of_member uin (members_of (p ∷ ps))) _))

    half_uin :
        (uid : List ℕ)
        → answer (uid2uin uid (some group_uin) asked)
          ≡ ready (member_or_error (uin_of_member uid (members_of (p ∷ ps))))
    unfolding uid2uin uid2uin_in_mode uid2uin_cached refresh_if_empty refresh_group_if_missing
        resolve_uid2uin_within_cache uin_without_map or_resolve members_within_cache
        insert_each_if_full set_members
    half_uin uid =
        rw
          (
            missing,
            refresh_group_members_cache-Stores group_uin (half_cache friends groups) groups p ps
                replies sent refl refl chained,
          )
          (rw (get-put group_uin (members_of (p ∷ ps)) groups)
            (answer-ok_or (uin_of_member uid (members_of (p ∷ ps))) _))

abbrev pub world_of : Cache → MembersPage → List MembersPage → List Reply → List Request → World
world_of cache p ps replies sent = record {
  cache = cache;
  replies = replies_of p ps replies;
  sent = sent;
}

uncached_uid :
    (uin group_uin : ℕ) (p : MembersPage) (ps : List MembersPage) (replies : List Reply)
    (sent : List Request)
    → Chained next_token p ps
    → answer (uin2uid uin (some group_uin) (world_of (new_cache uncached) p ps replies sent))
      ≡ ready (member_or_error (uid_of_member uin (members_of (p ∷ ps))))
unfolding uin2uid uin2uid_in_mode fast_fetch_group_members_uid new_cache
uncached_uid uin group_uin p ps replies sent chained =
    answer-search (λ m. m.uin == uin) (λ m. m.uid) group_uin p ps
      (world_of (new_cache uncached) p ps replies sent) replies refl chained

uncached_uin :
    (uid : List ℕ) (group_uin : ℕ) (p : MembersPage) (ps : List MembersPage) (replies : List Reply)
    (sent : List Request)
    → Chained next_token p ps
    → answer (uid2uin uid (some group_uin) (world_of (new_cache uncached) p ps replies sent))
      ≡ ready (member_or_error (uin_of_member uid (members_of (p ∷ ps))))
unfolding uid2uin uid2uin_in_mode fast_fetch_group_members_uin new_cache
uncached_uin uid group_uin p ps replies sent chained =
    answer-search (λ m. same_text m.uid uid) (λ m. m.uin) group_uin p ps
      (world_of (new_cache uncached) p ps replies sent) replies refl chained

-- For a group that is not in the cache, mode `Half`, which fetches all members and stores them, and
-- mode `None`, which stops at the first page with a hit, answer the same: the first member of all
-- pages with the uin, or with the uid, or that there is none.
pub modes_agree :
    (uin : ℕ) (uid : List ℕ) (group_uin : ℕ) (friends : Option (List (ℕ × BotFriend)))
    (groups : List (ℕ × List BotGroupMember)) (p : MembersPage) (ps : List MembersPage)
    (replies : List Reply) (sent : List Request)
    → contains_key groups group_uin ≡ false
    → Chained next_token p ps
    → (answer
          (uin2uid uin (some group_uin) (world_of (half_cache friends groups) p ps replies sent))
        ≡ ready (member_or_error (uid_of_member uin (members_of (p ∷ ps)))))
      × (answer (uin2uid uin (some group_uin) (world_of (new_cache uncached) p ps replies sent))
          ≡ ready (member_or_error (uid_of_member uin (members_of (p ∷ ps)))))
      × (answer
            (uid2uin uid (some group_uin) (world_of (half_cache friends groups) p ps replies sent))
          ≡ ready (member_or_error (uin_of_member uid (members_of (p ∷ ps)))))
      × (answer (uid2uin uid (some group_uin) (world_of (new_cache uncached) p ps replies sent))
          ≡ ready (member_or_error (uin_of_member uid (members_of (p ∷ ps)))))
modes_agree uin uid group_uin friends groups p ps replies sent missing chained = (
  half_uid group_uin friends groups p ps replies sent missing chained uin,
  uncached_uid uin group_uin p ps replies sent chained,
  half_uin group_uin friends groups p ps replies sent missing chained uid,
  uncached_uin uid group_uin p ps replies sent chained,
)
