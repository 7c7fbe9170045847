-- ===== src/Cache/LastPage.antt =====
-- mania/src/core/operation/cache_op.rs: fetch_maybe_cached_group_members without a cache.
use mania.Base.{ℕ, List, [], ◌∷◌, ◌≡◌, ap, refl, Option, none, false}
use mania.Base.Fault.{ok}
use mania.Base.Map.{put, contains_key, number_key, text_key}
use mania.Cache.{Cache, uncached, new_cache}
use mania.Cache.Fetch.{insert_each_if_full, set_members}
use mania.Cache.Lookup.{refresh_group_if_missing}
use mania.Cache.Pages.{Chained, foldl, iter_fetch-collect}
use mania.Cache.Paging.{iter_fetch_group, as_members}
use mania.Cache.Task.{ready, Reply, members_page, MembersPage, Request, fetch_members, answer}
use mania.Entity.{BotGroupMember, BotFriend}
use mania.Cache.Groups.{members_of, next_token, as_members-wrap}
use mania.Cache.Agree.{half_cache, world_of, refresh_group_members_cache-Stores}
use mania.Cache.Maybe.{
  store_page, refresh_if_asked, fetch_maybe_cached_group_members, members_from_server,
  members_from_cache,
}
use mania.Base.{==_refl}

abbrev pub last_page : MembersPage → List MembersPage → MembersPage
last_page p [] = p
last_page p (q ∷ qs) = last_page q qs

foldl-put :
    (group_uin : ℕ) (p : MembersPage) (ps : List MembersPage)
    → foldl
        (λ (groups : List (ℕ × List BotGroupMember)) page. put group_uin page.group_members groups)
        ((group_uin, p.group_members) ∷ [])
        ps
      ≡ (group_uin, (last_page p ps).group_members) ∷ []
unfolding put
foldl-put group_uin p [] = refl
foldl-put group_uin p (q ∷ qs) = rw (==_refl group_uin) (foldl-put group_uin q qs)

store_page_lem :
    (group_uin : ℕ) (groups : List (ℕ × List BotGroupMember)) (page : MembersPage) (cache : Cache)
    → store_page group_uin groups page cache
      ≡ (ok (none, put group_uin page.group_members groups), cache)
unfolding store_page
store_page_lem group_uin groups page cache = refl

-- Where the server answers with several pages of members, the function of the caller is given, in
-- mode `Half` and for a group that is not cached, the members of all pages, but in mode `None` only
-- those of the last page: each page replaces the one before it.
pub fetch_maybe_cached_group_members-Last :
    (group_uin : ℕ) (process_fn : List (ℕ × List BotGroupMember) → List BotGroupMember)
    (friends : Option (List (ℕ × BotFriend))) (groups : List (ℕ × List BotGroupMember))
    (p : MembersPage) (ps : List MembersPage) (replies : List Reply) (sent : List Request)
    → contains_key groups group_uin ≡ false
    → Chained next_token p ps
    → (answer (
          fetch_maybe_cached_group_members group_uin process_fn false
            (world_of (half_cache friends groups) p ps replies sent))
        ≡ ready (ok (process_fn (put group_uin (members_of (p ∷ ps)) groups))))
      × (answer (
            fetch_maybe_cached_group_members group_uin process_fn false
              (world_of (new_cache uncached) p ps replies sent))
          ≡ ready (ok (process_fn ((group_uin, (last_page p ps).group_members) ∷ []))))
unfolding fetch_maybe_cached_group_members members_from_server members_from_cache refresh_if_asked
    refresh_group_if_missing iter_fetch_group new_cache insert_each_if_full set_members
fetch_maybe_cached_group_members-Last group_uin process_fn friends groups p ps replies sent missing
      chained =
    (
      rw
          (
            missing,
            refresh_group_members_cache-Stores group_uin (half_cache friends groups) groups p ps
                replies sent refl refl chained,
          )
          refl,
      rw
          (iter_fetch-collect (fetch_members group_uin) as_members next_token members_page
            as_members-wrap
            (λ (groups : List (ℕ × List BotGroupMember)) page.
              put group_uin page.group_members groups)
            (store_page group_uin) (store_page_lem group_uin) none [] p ps replies
            (new_cache uncached) sent chained)
          (ap (λ m. ready (ok (process_fn m))) (foldl-put group_uin p ps)),
    )
