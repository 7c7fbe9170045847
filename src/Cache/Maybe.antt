-- ===== src/Cache/Maybe.antt =====
-- mania/src/core/operation/cache_op.rs: the members and the friends for a function of the caller, and
-- mania/src/core/business/caching_logic.rs: what a change of a group does to the cache.
use mania.Base.{ℕ, List, [], ◌∷◌, Option, some, none, Bool, if◌then◌else◌}
use mania.Base.Fault.{ok}
use mania.Base.Map.{put, contains_key, same_text, number_key}
use mania.Cache.Fetch.{is_uncached, refresh_friends_cache, refresh_group_members_cache}
use mania.Cache.Lookup.{or_default, refresh_group_if_missing}
use mania.Cache.Paging.{Process, iter_fetch_friends, iter_fetch_group}
use mania.Cache.Task.{Task, MembersPage, FriendsPage, ◌>>=◌, ◌>>◌, pure, load, unwrap}
use mania.Entity.{BotFriend, BotGroupMember}

-- Each page is stored under the group.
unfoldable pub store_page : ℕ → Process (List (ℕ × List BotGroupMember)) MembersPage (Unit {0})
unfolding put
store_page group_uin groups page cache = (ok (none, put group_uin page.group_members groups), cache)

unfoldable pub refresh_if_asked : Bool → Task (Unit {0}) → Task (Unit {0})
refresh_if_asked refresh_cache refresh = if refresh_cache then refresh else pure tt

unfoldable pub members_from_cache :
    ℕ → (List (ℕ × List BotGroupMember) → List BotGroupMember) → Bool → Task (List BotGroupMember)
unfolding refresh_group_members_cache refresh_group_if_missing refresh_if_asked
members_from_cache group_uin process_fn refresh_cache = do
  refresh_if_asked refresh_cache (refresh_group_members_cache group_uin)
  refresh_group_if_missing (some group_uin)
  cache ← load
  groups ← unwrap cache.cached_group_members
  pure (process_fn groups)

unfoldable pub members_from_server :
    ℕ → (List (ℕ × List BotGroupMember) → List BotGroupMember) → Task (List BotGroupMember)
unfolding iter_fetch_group store_page
members_from_server group_uin process_fn = do
  fetched ← iter_fetch_group group_uin (store_page group_uin) []
  pure (process_fn fetched.1)

unfoldable pub fetch_maybe_cached_group_members :
    ℕ → (List (ℕ × List BotGroupMember) → List BotGroupMember) → Bool → Task (List BotGroupMember)
unfolding members_from_cache members_from_server
fetch_maybe_cached_group_members group_uin process_fn refresh_cache = do
  cache ← load
  if is_uncached cache.cache_mode
      then members_from_server group_uin process_fn
      else members_from_cache group_uin process_fn refresh_cache

unfoldable pub put_friends : List BotFriend → List (ℕ × BotFriend) → List (ℕ × BotFriend)
unfolding put
put_friends [] friends = friends
put_friends (friend ∷ rest) friends = put_friends rest (put friend.uin friend friends)

unfoldable pub store_friends_page : Process (List (ℕ × BotFriend)) FriendsPage (Unit {0})
unfolding put_friends
store_friends_page friends page cache = (ok (none, put_friends page.friends friends), cache)

-- A friend that is asked for and is not there.
unfoldable pub refresh_friends_if_missing : Option ℕ → Task (Unit {0})
unfolding refresh_friends_cache contains_key
refresh_friends_if_missing none = pure tt
refresh_friends_if_missing (some friend_uin) = do
  cache ← load
  friends ← unwrap cache.cached_friends
  if contains_key friends friend_uin then pure tt else refresh_friends_cache

unfoldable pub friends_from_cache :
    Option ℕ → (List (ℕ × BotFriend) → List BotFriend) → Bool → Task (List BotFriend)
unfolding refresh_friends_cache refresh_friends_if_missing refresh_if_asked
friends_from_cache maybe_friend_uin process_fn refresh_cache = do
  refresh_if_asked refresh_cache refresh_friends_cache
  refresh_friends_if_missing maybe_friend_uin
  cache ← load
  friends ← unwrap cache.cached_friends
  pure (process_fn friends)

unfoldable pub friends_from_server : (List (ℕ × BotFriend) → List BotFriend) → Task (List BotFriend)
unfolding iter_fetch_friends store_friends_page
friends_from_server process_fn = do
  fetched ← iter_fetch_friends store_friends_page []
  pure (process_fn fetched.1)

unfoldable pub fetch_maybe_cached_friends :
    Option ℕ → (List (ℕ × BotFriend) → List BotFriend) → Bool → Task (List BotFriend)
unfolding friends_from_cache friends_from_server
fetch_maybe_cached_friends maybe_friend_uin process_fn refresh_cache = do
  cache ← load
  if is_uncached cache.cache_mode
      then friends_from_server process_fn
      else friends_from_cache maybe_friend_uin process_fn refresh_cache

-- The received events that the cache looks at.
pub data GroupEvent : Type 0 where
  group_sys_increase : (group_uin : ℕ) → GroupEvent
  group_sys_decrease : (group_uin : ℕ) (member_uid : List ℕ) → GroupEvent
  unrelated : GroupEvent

-- `if let Err(e)`: an error is only logged.
unfoldable pub refresh_quietly : ℕ → Task (Unit {0})
unfolding refresh_group_members_cache
refresh_quietly group_uin w = or_default tt (refresh_group_members_cache group_uin w)

-- `self_uid` is the uid of the key store.
unfoldable pub caching_logic_incoming : Option (List ℕ) → GroupEvent → Task (Unit {0})
unfolding refresh_quietly
caching_logic_incoming self_uid (group_sys_increase group_uin) = refresh_quietly group_uin
caching_logic_incoming self_uid (group_sys_decrease group_uin member_uid) = do
  uid ← unwrap self_uid
  if same_text member_uid uid then pure tt else refresh_quietly group_uin
caching_logic_incoming self_uid unrelated = pure tt
