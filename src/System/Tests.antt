-- ===== src/System/Tests.antt =====
-- An answer with one friend, and the witness of the theorem.
use mania.Base.{ℕ, List, [], ◌∷◌, some, none, false, ◌≡◌, refl}
use mania.Base.Fault.{ok}
use mania.Base.Int.{pos}
use mania.Base.Map.{put, number_key}
use mania.Base.Text.{codes, decimal, digits, digit}
use mania.Cache.{full, new_cache}
use mania.Cache.Fetch.{store_friends}
use mania.Cache.Task.{FriendsPage}
use mania.Entity.{new_friend}
use mania.Oidb.{OidbBase, parse_into, parse_oidb, check_base}
use mania.System.Friends.{
  OidbFriend, FriendsResponse, parse_fetch_friends, page_of, parse_friends, parse_friend,
  friend_with, last_property,
}
use mania.System.Grouped.{Succeeds, parse_fetch_friends-Succeeds}
use mania.Base.{Option}

abbrev one_friend : OidbFriend
one_friend = record {
  uid = codes "u_1";
  custom_group = 4;
  uin = 10001;
  additional =
      record { type = 1; layer1 = some (record { code = 103; value = codes "r" } ∷ []) } ∷ [];
}

abbrev response : FriendsResponse
response = record {
  next = none;
  friends = one_friend ∷ [];
  groups = record { code = 4; value = codes "g" } ∷ [];
}

abbrev written : OidbBase → List ℕ
written base = base.body

abbrev base_read : List ℕ → Option OidbBase
base_read bytes = some (record {
  command = 0xfd4;
  sub_command = 1;
  error_code = 0;
  body = bytes;
  error_msg = [];
  lafter = false;
  reserved = pos 0;
})

abbrev response_read : List ℕ → Option FriendsResponse
response_read bytes = some response

abbrev parsed_page : FriendsPage
unfolding new_friend put decimal
parsed_page = record {
  friends =
      new_friend 10001 (codes "u_1") (codes "10001") (codes "r") [] []
        (some (record { group_id = 4; group_name = [] }))
      ∷ [];
  friend_groups = (4, codes "g") ∷ [];
  next_uin = none;
}

parses : parse_fetch_friends written base_read response_read (1 ∷ []) ≡ ok parsed_page
unfolding parse_fetch_friends parse_into parse_oidb check_base page_of parse_friends parse_friend
    friend_with last_property new_friend put decimal digits digit
parses = refl

parse_fetch_friends-Succeeds_example :
    Succeeds (store_friends [] parsed_page.friends [] (new_cache full))
parse_fetch_friends-Succeeds_example =
    parse_fetch_friends-Succeeds written base_read response_read (1 ∷ []) parsed_page [] []
      (new_cache full) parses
