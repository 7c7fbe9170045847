-- ===== src/System/Friends.antt =====
-- mania/src/core/event/system/fetch_friend.rs: an answer becomes a page of friends. The messages are
-- those of core/protos/service/oidb/generics.proto and OidbSvcTrpcTcp0xFD4_1.proto.
use mania.Base.{ℕ, List, [], ◌∷◌, Option, some, none, if◌then◌else◌, ◌==◌}
use mania.Base.Fault.{Result, ok, err}
use mania.Base.Map.{put, number_key}
use mania.Base.Text.{codes, decimal}
use mania.Cache.Fetch.{find}
use mania.Cache.Task.{FriendsPage}
use mania.Entity.{BotFriend, new_friend}
use mania.Event.{EventError, from_packet}
use mania.Oidb.{OidbBase, parse_into}
use Prim.Native.String.{String}

pub record OidbFriendProperty : Type 0 where
  pub code : ℕ
  pub value : List ℕ

-- `layer1` holds the properties.
pub record OidbFriendAdditional : Type 0 where
  pub type : ℕ
  pub layer1 : Option (List OidbFriendProperty)

pub record OidbFriend : Type 0 where
  pub uid : List ℕ
  pub custom_group : ℕ
  pub uin : ℕ
  pub additional : List OidbFriendAdditional

pub record FriendsResponse : Type 0 where
  pub next : Option ℕ
  pub friends : List OidbFriend
  pub groups : List OidbFriendProperty

abbrev pub other : {A : Type 0} → String → Result EventError A
other text = err (EventError.other_error (codes text))

abbrev pub then_ok :
    {A B : Type 0} → (A → Result EventError B) → Result EventError A → Result EventError B
then_ok f (ok a) = f a
then_ok f (err e) = err e

abbrev pub ok_or : {A : Type 0} → String → Option A → Result EventError A
ok_or text none = other text
ok_or text (some a) = ok a

-- The last property with a code counts, as the loop overwrites.
unfoldable pub last_property : ℕ → Option (List ℕ) → List OidbFriendProperty → Option (List ℕ)
last_property code found [] = found
last_property code found (p ∷ properties) =
    last_property code (if p.code == code then some p.value else found) properties

abbrev pub unwrap_or : List ℕ → Option (List ℕ) → List ℕ
unwrap_or text none = text
unwrap_or text (some value) = value

unfoldable pub friend_with : OidbFriend → List OidbFriendProperty → BotFriend
unfolding last_property new_friend decimal
friend_with friend properties =
    new_friend friend.uin friend.uid
      (unwrap_or (decimal friend.uin) (last_property 20002 none properties))
      (unwrap_or [] (last_property 103 none properties))
      (unwrap_or [] (last_property 102 none properties))
      (unwrap_or [] (last_property 27394 none properties))
      (some (record { group_id = friend.custom_group; group_name = [] }))

unfoldable pub parse_friend : OidbFriend → Result EventError BotFriend
unfolding friend_with
parse_friend friend =
    then_ok
      (λ (additional : OidbFriendAdditional).
        then_ok (λ properties. ok (friend_with friend properties))
          (ok_or "Missing layer1 in additional" additional.layer1))
      (ok_or "Missing additional with type 1"
        (find (λ (a : OidbFriendAdditional). a.type == 1) friend.additional))

abbrev pub cons_friend :
    Result EventError BotFriend
    → Result EventError (List BotFriend)
    → Result EventError (List BotFriend)
cons_friend (err e) rest = err e
cons_friend (ok friend) (err e) = err e
cons_friend (ok friend) (ok friends) = ok (friend ∷ friends)

unfoldable pub parse_friends : List OidbFriend → Result EventError (List BotFriend)
unfolding parse_friend
parse_friends [] = ok []
parse_friends (friend ∷ friends) = cons_friend (parse_friend friend) (parse_friends friends)

abbrev pub collect_groups : List (ℕ × List ℕ) → List OidbFriendProperty → List (ℕ × List ℕ)
collect_groups m [] = m
collect_groups m (group ∷ groups) = collect_groups (put group.code group.value m) groups

unfoldable pub page_of : FriendsResponse → Result EventError FriendsPage
unfolding parse_friends put
page_of response =
    then_ok
      (λ friends. ok (record {
        friends = friends;
        friend_groups = collect_groups [] response.groups;
        next_uin = response.next;
      }))
      (parse_friends response.friends)

-- The codecs that prost generates.
module _ (encode_base : OidbBase → List ℕ) (decode_base : List ℕ → Option OidbBase)
    (decode_response : List ℕ → Option FriendsResponse) where
  unfoldable pub parse_fetch_friends : List ℕ → Result EventError FriendsPage
  unfolding parse_into page_of
  parse_fetch_friends packet =
      then_ok page_of (from_packet (parse_into encode_base decode_base decode_response packet))
