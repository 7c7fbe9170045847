-- ===== src/Cache/Tests.antt =====
-- Tests of the cache, and the witnesses of its theorems.
use mania.Base.{ℕ, List, [], ◌∷◌, ◌≡◌, refl, some, none, false, true}
use mania.Base.Fault.{ok}
use mania.Base.Map.{put, get, number_key, contains_key}
use mania.Base.Text.{codes}
use mania.Cache.{uncached, full, new_cache}
use mania.Cache.Agree.{half_cache, world_of, modes_agree}
use mania.Cache.Fetch.{uid_of_member, uin_of_member}
use mania.Cache.Fits.{Safe}
use mania.Cache.Groups.{members_of, member_or_error}
use mania.Cache.LastPage.{last_page, fetch_maybe_cached_group_members-Last}
use mania.Cache.Lookup.{uin2uid, uid2uin}
use mania.Cache.Maybe.{fetch_maybe_cached_group_members, fetch_maybe_cached_friends}
use mania.Cache.Safety.{operations-Safe}
use mania.Cache.Stores.{new_cache-Fits}
use mania.Cache.Task.{ready, answer, MembersPage}
use mania.Entity.{BotGroupMember, member, BotFriend}

abbrev member_with : ℕ → List ℕ → BotGroupMember
member_with uin uid = record {
  uin = uin;
  uid = uid;
  permission = member;
  group_level = 1;
  member_card = none;
  special_title = none;
  member_name = none;
  join_time = none;
  last_msg_time = none;
  shut_up_timestamp = none;
}

abbrev first_page : MembersPage
first_page = record { group_members = member_with 1 (codes "u_1") ∷ []; token = some (codes "t") }

abbrev second_page : MembersPage
second_page = record { group_members = member_with 2 (codes "u_2") ∷ []; token = none }

abbrev members_in_map : List (ℕ × List BotGroupMember) → List BotGroupMember
members_in_map [] = []
members_in_map (entry ∷ m) = entry.1

abbrev no_friends : List (ℕ × BotFriend) → List BotFriend
no_friends m = []

operations-Safe_example :
    Safe full (uin2uid 2 (some 7) (world_of (new_cache full) first_page (second_page ∷ []) [] []))
    × Safe full (
        uid2uin
          (codes "u_2")
          (some 7)
          (world_of (new_cache full) first_page (second_page ∷ []) [] []))
    × Safe full (
        fetch_maybe_cached_group_members 7 members_in_map true
          (world_of (new_cache full) first_page (second_page ∷ []) [] []))
    × Safe full (
        fetch_maybe_cached_friends
          (some 7)
          no_friends
          true
          (world_of (new_cache full) first_page (second_page ∷ []) [] []))
operations-Safe_example =
    operations-Safe full (world_of (new_cache full) first_page (second_page ∷ []) [] []) 2
      (codes "u_2") (some 7) 7 members_in_map no_friends true (new_cache-Fits full)

abbrev no_groups : List (ℕ × List BotGroupMember)
no_groups = []

missing : contains_key no_groups 7 ≡ false
unfolding contains_key get
missing = refl

modes_agree_example :
    (answer (uin2uid 2 (some 7) (world_of (half_cache none []) first_page (second_page ∷ []) [] []))
      ≡ ready (member_or_error (uid_of_member 2 (members_of (first_page ∷ second_page ∷ [])))))
    × (answer
          (uin2uid 2 (some 7) (world_of (new_cache uncached) first_page (second_page ∷ []) [] []))
        ≡ ready (member_or_error (uid_of_member 2 (members_of (first_page ∷ second_page ∷ [])))))
    × (answer (
          uid2uin
            (codes "u_3")
            (some 7)
            (world_of (half_cache none []) first_page (second_page ∷ []) [] []))
        ≡ ready (
            member_or_error
              (uin_of_member (codes "u_3") (members_of (first_page ∷ second_page ∷ [])))))
    × (answer (
          uid2uin
            (codes "u_3")
            (some 7)
            (world_of (new_cache uncached) first_page (second_page ∷ []) [] []))
        ≡ ready (
            member_or_error
              (uin_of_member (codes "u_3") (members_of (first_page ∷ second_page ∷ [])))))
modes_agree_example =
    modes_agree 2 (codes "u_3") 7 none [] first_page (second_page ∷ []) [] [] missing (refl, refl)

fetch_maybe_cached_group_members-Last_example :
    (answer (
        fetch_maybe_cached_group_members 7 members_in_map false
          (world_of (half_cache none []) first_page (second_page ∷ []) [] []))
      ≡ ready (ok (members_in_map (put 7 (members_of (first_page ∷ second_page ∷ [])) []))))
    × (answer (
          fetch_maybe_cached_group_members 7 members_in_map false
            (world_of (new_cache uncached) first_page (second_page ∷ []) [] []))
        ≡ ready (
            ok
              (members_in_map ((7, (last_page first_page (second_page ∷ [])).group_members) ∷ []))))
fetch_maybe_cached_group_members-Last_example =
    fetch_maybe_cached_group_members-Last 7 members_in_map none [] first_page (second_page ∷ []) []
      [] missing (refl, refl)

test_uid :
    answer (uin2uid 2 (some 7) (world_of (new_cache uncached) first_page (second_page ∷ []) [] []))
    ≡ ready (ok (codes "u_2"))
test_uid = modes_agree_example.1
