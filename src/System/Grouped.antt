-- ===== src/System/Grouped.antt =====
-- mania/src/core/event/system/fetch_friend.rs with mania/src/core/operation/cache_op.rs: what is parsed
-- can be stored.
use mania.Base.{ℕ, List, [], ◌∷◌, Option, some, none, true, ◌==◌, All, ◌≡◌, refl, subst}
use mania.Base.Fault.{Result, ok, err}
use mania.Base.Map.{is_some, put, number_key}
use mania.Cache.{Cache}
use mania.Cache.Fetch.{find, Stored, store_friends, group_of, named, insert_if_full}
use mania.Cache.Task.{FriendsPage}
use mania.Entity.{BotFriend, BotFriendGroup, new_friend}
use mania.Event.{EventError, from_packet}
use mania.Oidb.{OidbBase, parse_into}
use mania.System.Friends.{
  OidbFriend, OidbFriendProperty, OidbFriendAdditional, FriendsResponse, then_ok, ok_or,
  friend_with, parse_friend, cons_friend, parse_friends, page_of, collect_groups,
  parse_fetch_friends,
}

abbrev Grouped : BotFriend → Type 0
Grouped friend = is_some friend.group ≡ true

ok_injective : {A : Type 0} {a b : A} → ◌≡◌ {A = Result EventError A} (ok a) (ok b) → a ≡ b
ok_injective e = cc (e)

friend_with-Grouped :
    (friend : OidbFriend) (properties : List OidbFriendProperty)
    → Grouped (friend_with friend properties)
unfolding friend_with new_friend
friend_with-Grouped friend properties = refl

layer-Grouped :
    (friend : OidbFriend) (layer1 : Option (List OidbFriendProperty)) (b : BotFriend)
    → then_ok
        (λ properties. ok (friend_with friend properties))
        (ok_or "Missing layer1 in additional" layer1)
      ≡ ok b
    → Grouped b
layer-Grouped friend none b e = cc (e)
layer-Grouped friend (some properties) b e =
    subst Grouped (ok_injective e) (friend_with-Grouped friend properties)

additional-Grouped :
    (friend : OidbFriend) (additional : Option OidbFriendAdditional) (b : BotFriend)
    → then_ok
        (λ (a : OidbFriendAdditional).
          then_ok
            (λ properties. ok (friend_with friend properties))
            (ok_or "Missing layer1 in additional" a.layer1))
        (ok_or "Missing additional with type 1" additional)
      ≡ ok b
    → Grouped b
additional-Grouped friend none b e = cc (e)
additional-Grouped friend (some a) b e = layer-Grouped friend a.layer1 b e

parse_friend-Grouped :
    (friend : OidbFriend) (b : BotFriend) → parse_friend friend ≡ ok b → Grouped b
unfolding parse_friend
parse_friend-Grouped friend b e =
    additional-Grouped friend (find (λ (a : OidbFriendAdditional). a.type == 1) friend.additional) b
      e

cons_friend-Grouped :
    (r : Result EventError BotFriend) (rest : Result EventError (List BotFriend))
    (bs : List BotFriend)
    → ((b : BotFriend) → r ≡ ok b → Grouped b)
    → ((bs : List BotFriend) → rest ≡ ok bs → All Grouped bs)
    → cons_friend r rest ≡ ok bs
    → All Grouped bs
cons_friend-Grouped (err x) rest bs h k e = cc (e)
cons_friend-Grouped (ok b) (err x) bs h k e = cc (e)
cons_friend-Grouped (ok b) (ok others) bs h k e =
    subst (All Grouped) (ok_injective e) (h b refl, k others refl)

parse_friends-Grouped :
    (friends : List OidbFriend) (bs : List BotFriend)
    → parse_friends friends ≡ ok bs
    → All Grouped bs
unfolding parse_friends
parse_friends-Grouped [] bs e = subst (All Grouped) (ok_injective e) tt
parse_friends-Grouped (friend ∷ friends) bs e =
    cons_friend-Grouped (parse_friend friend) (parse_friends friends) bs
      (parse_friend-Grouped friend) (parse_friends-Grouped friends) e

-- The stores of a page that succeed.
abbrev pub Succeeds : Stored → Type 0
Succeeds stored = (m : List (ℕ × BotFriend)) × (cache : Cache) × (stored ≡ (ok m, cache))

group_of-Succeeds :
    (next : BotFriendGroup → Stored) (cache : Cache) (group : Option BotFriendGroup)
    → is_some group ≡ true
    → ((g : BotFriendGroup) → Succeeds (next g))
    → Succeeds (group_of next cache group)
unfolding group_of
group_of-Succeeds next cache none e h = cc (e)
group_of-Succeeds next cache (some g) e h = h g

store_friends-Succeeds :
    (groups : List (ℕ × List ℕ)) (page : List BotFriend) (friends : List (ℕ × BotFriend))
    (cache : Cache)
    → All Grouped page
    → Succeeds (store_friends groups page friends cache)
unfolding store_friends
store_friends-Succeeds groups [] friends cache a = (friends, cache, refl)
store_friends-Succeeds groups (friend ∷ rest) friends cache (g, a) =
    group_of-Succeeds _ cache friend.group g λ group.
      store_friends-Succeeds groups rest (put friend.uin (named groups group friend) friends)
        (insert_if_full cache.cache_mode friend.uin friend.uid cache) a

page_with : FriendsResponse → List BotFriend → Result EventError FriendsPage
unfolding put
page_with response friends = ok (record {
  friends = friends;
  friend_groups = collect_groups [] response.groups;
  next_uin = response.next;
})

page_with-Grouped :
    (response : FriendsResponse) (r : Result EventError (List BotFriend)) (page : FriendsPage)
    → ((bs : List BotFriend) → r ≡ ok bs → All Grouped bs)
    → then_ok (page_with response) r ≡ ok page
    → All Grouped page.friends
unfolding page_with
page_with-Grouped response (err x) page h e = cc (e)
page_with-Grouped response (ok bs) page h e =
    subst (λ (page : FriendsPage). All Grouped page.friends) (ok_injective e) (h bs refl)

parsed-Grouped :
    (r : Result EventError FriendsResponse) (page : FriendsPage)
    → then_ok page_of r ≡ ok page
    → All Grouped page.friends
unfolding page_of page_with
parsed-Grouped (err x) page e = cc (e)
parsed-Grouped (ok response) page e =
    page_with-Grouped response (parse_friends response.friends) page
      (parse_friends-Grouped response.friends) e

module _ (encode_base : OidbBase → List ℕ) (decode_base : List ℕ → Option OidbBase)
    (decode_response : List ℕ → Option FriendsResponse) where
  -- A page of friends that was parsed from an answer is stored without the error of a missing group,
  -- whatever the answer, the cache and the groups that are known.
  pub parse_fetch_friends-Succeeds :
      (packet : List ℕ) (page : FriendsPage) (groups : List (ℕ × List ℕ))
      (friends : List (ℕ × BotFriend)) (cache : Cache)
      → parse_fetch_friends encode_base decode_base decode_response packet ≡ ok page
      → Succeeds (store_friends groups page.friends friends cache)
  unfolding parse_fetch_friends
  parse_fetch_friends-Succeeds packet page groups friends cache e =
      store_friends-Succeeds groups page.friends friends cache (
        parsed-Grouped (from_packet (parse_into encode_base decode_base decode_response packet))
          page e)
