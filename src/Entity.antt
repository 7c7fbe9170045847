-- ===== src/Entity.antt =====
-- mania/src/entity/bot_friend.rs and bot_group_member.rs: friends and the members of groups.
use mania.Base.{ℕ, Option, List, ◌++◌}
use mania.Base.Text.{codes, decimal}

pub record BotFriendGroup : Type 0 where
  pub group_id : ℕ
  pub group_name : List ℕ

pub record BotFriend : Type 0 where
  pub uin : ℕ
  pub uid : List ℕ
  pub nickname : List ℕ
  pub remarks : List ℕ
  pub personal_sign : List ℕ
  pub qid : List ℕ
  pub group : Option BotFriendGroup
  pub avatar : List ℕ

-- `BotFriend::new`.
unfoldable pub new_friend :
    ℕ → List ℕ → List ℕ → List ℕ → List ℕ → List ℕ → Option BotFriendGroup → BotFriend
unfolding decimal
new_friend uin uid nickname remarks personal_sign qid group = record {
  uin = uin;
  uid = uid;
  nickname = nickname;
  remarks = remarks;
  personal_sign = personal_sign;
  qid = qid;
  group = group;
  avatar = codes "https://q1.qlogo.cn/g?b=qq&nk=" ++ (decimal uin ++ codes "&s=640");
}

pub data GroupMemberPermission : Type 0 where
  member : GroupMemberPermission
  owner : GroupMemberPermission
  admin : GroupMemberPermission

-- A time is its number of seconds.
pub record BotGroupMember : Type 0 where
  pub uin : ℕ
  pub uid : List ℕ
  pub permission : GroupMemberPermission
  pub group_level : ℕ
  pub member_card : Option (List ℕ)
  pub special_title : Option (List ℕ)
  pub member_name : Option (List ℕ)
  pub join_time : Option ℕ
  pub last_msg_time : Option ℕ
  pub shut_up_timestamp : Option ℕ
