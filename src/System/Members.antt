-- ===== src/System/Members.antt =====
-- mania/src/core/event/system/fetch_members.rs: an answer becomes a page of the members of a group. The
-- messages are those of core/protos/service/oidb/OidbSvcTrpcTcp0xFE7_3.proto.
use mania.Base.{ℕ, List, [], ◌∷◌, Option, some, none, if◌then◌else◌, ◌==◌}
use mania.Base.Fault.{Result, ok, err}
use mania.Base.Utf8.{from_utf8_lossy}
use mania.Cache.Task.{MembersPage}
use mania.Entity.{BotGroupMember, GroupMemberPermission, member, owner, admin}
use mania.Event.{EventError, from_packet}
use mania.Oidb.{OidbBase, parse_into}
use mania.System.Friends.{then_ok, ok_or}

pub record MemberUin : Type 0 where
  pub uid : List ℕ
  pub uin : ℕ

-- `member_card` is the card's own optional text; `level` is the level of its message.
pub record MemberMessage : Type 0 where
  pub uin : Option MemberUin
  pub member_name : List ℕ
  pub member_card : Option (Option (List ℕ))
  pub level : Option ℕ
  pub special_title : Option (List ℕ)
  pub join_timestamp : ℕ
  pub last_msg_timestamp : ℕ
  pub shut_up_timestamp : Option ℕ
  pub permission : ℕ

pub record MembersResponse : Type 0 where
  pub group_uin : ℕ
  pub members : List MemberMessage
  pub token : Option (List ℕ)

-- `GroupMemberPermission::try_from`
abbrev pub permission_of : ℕ → Option GroupMemberPermission
permission_of v =
    if v == 0
    then some member
    else if v == 1
    then some owner
    else if v == 2
    then some admin
    else none

abbrev pub flatten : Option (Option (List ℕ)) → Option (List ℕ)
flatten none = none
flatten (some card) = card

abbrev pub number_or : ℕ → Option ℕ → ℕ
number_or n none = n
number_or n (some m) = m

abbrev pub title_of : Option (List ℕ) → Option (List ℕ)
title_of none = none
title_of (some bytes) = some (from_utf8_lossy bytes)

-- `DateTime::from_timestamp` of chrono, and the codecs that prost generates.
module _ (from_timestamp : ℕ → Option ℕ) (encode_base : OidbBase → List ℕ)
    (decode_base : List ℕ → Option OidbBase)
    (decode_response : List ℕ → Option MembersResponse) where
  unfoldable pub parse_member : MemberMessage → Result EventError BotGroupMember
  parse_member message =
      then_ok
        (λ (uin_data : MemberUin).
          then_ok
            (λ permission.
              then_ok
                (λ join_time.
                  then_ok
                    (λ last_msg_time.
                      then_ok
                        (λ shut_up_timestamp. ok (record {
                          uin = uin_data.uin;
                          uid = uin_data.uid;
                          permission = permission;
                          group_level = number_or 0 message.level;
                          member_card = flatten message.member_card;
                          special_title = title_of message.special_title;
                          member_name = some message.member_name;
                          join_time = some join_time;
                          last_msg_time = some last_msg_time;
                          shut_up_timestamp = some shut_up_timestamp;
                        }))
                        (ok_or "Invalid shut up timestamp"
                          (from_timestamp (number_or 0 message.shut_up_timestamp))))
                    (ok_or "Invalid last message timestamp"
                      (from_timestamp message.last_msg_timestamp)))
                (ok_or "Invalid join timestamp" (from_timestamp message.join_timestamp)))
            (ok_or "Invalid permission" (permission_of message.permission)))
        (ok_or "Missing uin" message.uin)

  abbrev pub cons_member :
      Result EventError BotGroupMember
      → Result EventError (List BotGroupMember)
      → Result EventError (List BotGroupMember)
  cons_member (err e) rest = err e
  cons_member (ok m) (err e) = err e
  cons_member (ok m) (ok members) = ok (m ∷ members)

  unfoldable pub parse_members : List MemberMessage → Result EventError (List BotGroupMember)
  unfolding parse_member
  parse_members [] = ok []
  parse_members (message ∷ messages) = cons_member (parse_member message) (parse_members messages)

  unfoldable pub members_page_of : MembersResponse → Result EventError MembersPage
  unfolding parse_members
  members_page_of response =
      then_ok (λ members. ok (record { group_members = members; token = response.token }))
        (parse_members response.members)

  unfoldable pub parse_fetch_members : List ℕ → Result EventError MembersPage
  unfolding parse_into members_page_of
  parse_fetch_members packet =
      then_ok members_page_of
        (from_packet (parse_into encode_base decode_base decode_response packet))
