-- ===== src/Cache/Fetch.antt =====
-- mania/src/core/operation/cache_op.rs: refreshing the cache, and searching the pages without one.
use mania.Base.{ℕ, List, [], ◌∷◌, ◌++◌, ◌==◌, Option, some, none, Bool, true, false, if◌then◌else◌}
use mania.Base.Fault.{Result, ok, err}
use mania.Base.Map.{get, put, same_text, number_key}
use mania.Cache.{Cache, CacheMode, full, half, uncached, insert_uin_uid, in_map}
use mania.Cache.Paging.{Process, iter_fetch_friends, iter_fetch_group}
use mania.Cache.Task.{
  Task, FriendsPage, MembersPage, generic, return, ◌>>=◌, ◌>>◌, pure, load, change, unwrap,
}
use mania.Entity.{BotFriend, BotFriendGroup, BotGroupMember}
use mania.Errors.{ManiaError}
use Prim.Native.String.{String}

abbrev pub is_full : CacheMode → Bool
is_full full = true
is_full half = false
is_full uncached = false

abbrev pub is_uncached : CacheMode → Bool
is_uncached full = false
is_uncached half = false
is_uncached uncached = true

-- `.iter().find(..)`
abbrev pub find {ℓ} : {A : Type ℓ} → (A → Bool) → List A → Option A
find p [] = none
find p (x ∷ xs) = if p x then some x else find p xs

abbrev pub opt_map {ℓ κ} : {A : Type ℓ} {B : Type κ} → (A → B) → Option A → Option B
opt_map f none = none
opt_map f (some a) = some (f a)

-- `HashMap::extend`, and the insertion of each entry.
abbrev pub extend : {V : Type 0} → List (ℕ × V) → List (ℕ × V) → List (ℕ × V)
extend m [] = m
extend m (entry ∷ entries) = extend (put entry.0 entry.1 m) entries

abbrev pub insert_if_full : CacheMode → ℕ → List ℕ → Cache → Cache
insert_if_full full uin uid cache = insert_uin_uid uin uid cache
insert_if_full half uin uid cache = cache
insert_if_full uncached uin uid cache = cache

-- The name of the group, where it is known.
unfoldable pub named : List (ℕ × List ℕ) → BotFriendGroup → BotFriend → BotFriend
unfolding get
named friend_groups group friend = elim (get friend_groups group.group_id) [
  | none ↦ friend
  | some name ↦ record friend {
    group = some (record { group_id = group.group_id; group_name = name });
  }
]

-- The loop over the friends of a page. It works on the page's copy, and fails at a friend without
-- a group, when those before it may be in the maps already.
abbrev pub Stored : Type 0
Stored = Result ManiaError (List (ℕ × BotFriend)) × Cache

-- `friend.group.as_ref().ok_or_else(..)?`
unfoldable pub group_of : (BotFriendGroup → Stored) → Cache → Option BotFriendGroup → Stored
group_of next cache none = (generic "Missing group id", cache)
group_of next cache (some group) = next group

unfoldable pub store_friends :
    List (ℕ × List ℕ) → List BotFriend → List (ℕ × BotFriend) → Cache → Stored
unfolding named put insert_uin_uid group_of
store_friends friend_groups [] friends cache = (ok friends, cache)
store_friends friend_groups (friend ∷ rest) friends cache =
    group_of
      (λ group.
        store_friends friend_groups rest (put friend.uin (named friend_groups group friend) friends)
          (insert_if_full cache.cache_mode friend.uin friend.uid cache))
      cache friend.group

abbrev pub Friends : Type 0
Friends = List (ℕ × BotFriend) × List (ℕ × List ℕ)

abbrev pub with_groups :
    List (ℕ × List ℕ)
    → Result ManiaError (List (ℕ × BotFriend)) × Cache
    → Result ManiaError (Option (Unit {0}) × Friends) × Cache
with_groups groups (ok friends, cache) = (ok (none, (friends, groups)), cache)
with_groups groups (err e, cache) = (err e, cache)

unfoldable pub collect_friends : Process Friends FriendsPage (Unit {0})
unfolding store_friends put
collect_friends (friends, friend_groups) page cache =
    let groups = extend friend_groups page.friend_groups in
    with_groups groups (store_friends groups page.friends friends cache)

abbrev pub set_friends : List (ℕ × BotFriend) → Cache → Cache
set_friends friends cache = record cache {
  cached_friends = in_map (λ _. friends) cache.cached_friends;
}

unfoldable pub set_members : ℕ → List BotGroupMember → Cache → Cache
unfolding put
set_members group_uin members cache = record cache {
  cached_group_members = in_map (put group_uin members) cache.cached_group_members;
}

unfoldable pub refill_friends : Task (Unit {0})
unfolding iter_fetch_friends collect_friends
refill_friends = do
  fetched ← iter_fetch_friends collect_friends ([], [])
  cache ← load
  unwrap cache.cached_friends
  change (set_friends fetched.1.0)

unfoldable pub refresh_friends_cache : Task (Unit {0})
unfolding refill_friends
refresh_friends_cache = do
  cache ← load
  if is_uncached cache.cache_mode then pure tt else refill_friends

unfoldable pub collect_members : Process (List BotGroupMember) MembersPage (Unit {0})
collect_members members page cache = (ok (none, members ++ page.group_members), cache)

unfoldable pub insert_each : List BotGroupMember → Cache → Cache
unfolding insert_uin_uid
insert_each [] cache = cache
insert_each (bgm ∷ members) cache = insert_each members (insert_uin_uid bgm.uin bgm.uid cache)

unfoldable pub insert_each_if_full : CacheMode → List BotGroupMember → Cache → Cache
unfolding insert_each
insert_each_if_full full members cache = insert_each members cache
insert_each_if_full half members cache = cache
insert_each_if_full uncached members cache = cache

unfoldable pub store_members : ℕ → List BotGroupMember → Task (Unit {0})
unfolding insert_each_if_full set_members
store_members group_uin group_members = do
  change (λ cache. insert_each_if_full cache.cache_mode group_members cache)
  cache ← load
  unwrap cache.cached_group_members
  change (set_members group_uin group_members)

unfoldable pub refill_group_members : ℕ → Task (Unit {0})
unfolding iter_fetch_group collect_members store_members
refill_group_members group_uin = do
  fetched ← iter_fetch_group group_uin collect_members []
  store_members group_uin fetched.1

unfoldable pub refresh_group_members_cache : ℕ → Task (Unit {0})
unfolding refill_group_members
refresh_group_members_cache group_uin = do
  cache ← load
  if is_uncached cache.cache_mode then pure tt else refill_group_members group_uin

-- `res.ok_or_else(..)`
abbrev pub ok_or : {A : Type 0} → String → Option A → Task A
ok_or text none = return (generic text)
ok_or text (some a) = pure a

-- A search of each page, which keeps nothing.
abbrev pub search : {P T : Type 0} → (P → Option T) → Process (Unit {0}) P T
search look _ page cache = (ok (look page, tt), cache)

abbrev pub uid_of_friend : ℕ → FriendsPage → Option (List ℕ)
uid_of_friend uin page = opt_map (λ (f : BotFriend). f.uid) (find (λ f. f.uin == uin) page.friends)

abbrev pub uin_of_friend : List ℕ → FriendsPage → Option ℕ
uin_of_friend uid page =
    opt_map (λ (f : BotFriend). f.uin) (find (λ f. same_text f.uid uid) page.friends)

abbrev pub uid_of_member : ℕ → List BotGroupMember → Option (List ℕ)
uid_of_member uin members =
    opt_map (λ (m : BotGroupMember). m.uid) (find (λ m. m.uin == uin) members)

abbrev pub uin_of_member : List ℕ → List BotGroupMember → Option ℕ
uin_of_member uid members =
    opt_map (λ (m : BotGroupMember). m.uin) (find (λ m. same_text m.uid uid) members)

unfoldable pub fast_fetch_friends_uid : ℕ → Task (List ℕ)
unfolding iter_fetch_friends
fast_fetch_friends_uid uin = do
  res ← iter_fetch_friends (search (uid_of_friend uin)) tt
  ok_or "Friend not found" res.0

unfoldable pub fast_fetch_friends_uin : List ℕ → Task ℕ
unfolding iter_fetch_friends
fast_fetch_friends_uin uid = do
  res ← iter_fetch_friends (search (uin_of_friend uid)) tt
  ok_or "Friend not found" res.0

unfoldable pub fast_fetch_group_members_uid : ℕ → ℕ → Task (List ℕ)
unfolding iter_fetch_group
fast_fetch_group_members_uid uin group_uin = do
  res ← iter_fetch_group group_uin (search (λ page. uid_of_member uin page.group_members)) tt
  ok_or "Member not found" res.0

unfoldable pub fast_fetch_group_members_uin : List ℕ → ℕ → Task ℕ
unfolding iter_fetch_group
fast_fetch_group_members_uin uid group_uin = do
  res ← iter_fetch_group group_uin (search (λ page. uin_of_member uid page.group_members)) tt
  ok_or "Member not found" res.0
