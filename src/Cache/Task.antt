-- ===== src/Cache/Task.antt =====
-- mania/src/core/operation/cache_op.rs: a task that sends events and awaits their answers, one after
-- the other. What `send_event` will answer is a list, which the task takes from; where it is used up,
-- the task waits. The cache is changed by this task alone while it runs.
use mania.Base.{ℕ, List, Option}
use mania.Base.Fault.{Result, ok, err}
use mania.Base.Text.{codes}
use Prim.Native.String.{String}
use mania.Cache.{Cache}
use mania.Entity.{BotFriend, BotGroupMember}
use mania.Errors.{BusinessError, ManiaError}

-- mania/src/core/event/system/fetch_friend.rs: FetchFriendsEvent, as it is answered.
pub record FriendsPage : Type 0 where
  pub friends : List BotFriend
  pub friend_groups : List (ℕ × List ℕ)
  pub next_uin : Option ℕ

-- mania/src/core/event/system/fetch_members.rs: FetchMembersEvent, as it is answered.
pub record MembersPage : Type 0 where
  pub group_members : List BotGroupMember
  pub token : Option (List ℕ)

-- What `send_event` returns: an error, or the event that the answer was parsed to.
pub data Reply : Type 0 where
  refused : BusinessError → Reply
  friends_page : FriendsPage → Reply
  members_page : MembersPage → Reply
  other_event : Reply

-- The events that are sent.
pub data Request : Type 0 where
  fetch_friends : Option ℕ → Request
  fetch_members : ℕ → Option (List ℕ) → Request

pub record World : Type 0 where
  pub cache : Cache
  pub replies : List Reply
  pub sent : List Request

pub data Await {ℓ} (A : Type ℓ) : Type ℓ where
  ready : A → Await A
  panicked : Await A
  waiting : Await A

abbrev pub Task {ℓ} : Type ℓ → Type ℓ
Task A = World → Await (Result ManiaError A × World)

abbrev pub generic {ℓ} : {A : Type ℓ} → String → Result ManiaError A
generic text = err (ManiaError.generic_error (codes text))

abbrev pub return {ℓ} : {A : Type ℓ} → Result ManiaError A → Task A
return r w = ready (r, w)

-- What comes behind `.await`.
abbrev pub resume {ℓ κ} :
    {A : Type ℓ} {B : Type κ}
    → (Result ManiaError A → Task B)
    → Await (Result ManiaError A × World)
    → Await (Result ManiaError B × World)
resume f (ready (r, w)) = f r w
resume f panicked = panicked
resume f waiting = waiting

-- `?`
abbrev pub question {ℓ κ} : {A : Type ℓ} {B : Type κ} → (A → Task B) → Result ManiaError A → Task B
question f (ok a) = f a
question f (err e) = return (err e)

infixl 5 ◌>>=◌ ◌>>◌
abbrev pub ◌>>=◌ {ℓ κ} : {A : Type ℓ} {B : Type κ} → Task A → (A → Task B) → Task B
◌>>=◌ m f w = resume (question f) (m w)

abbrev pub ◌>>◌ {ℓ κ} : {A : Type ℓ} {B : Type κ} → Task A → Task B → Task B
m >> k = m >>= λ _. k

abbrev pub pure {ℓ} : {A : Type ℓ} → A → Task A
pure a = return (ok a)

-- The cache as it stands.
abbrev pub load : Task Cache
load w = ready (ok w.cache, w)

abbrev pub change : (Cache → Cache) → Task (Unit {0})
change f w = ready (ok tt, record w { cache = f w.cache })

-- `.as_ref().unwrap()`
abbrev pub unwrap {ℓ} : {A : Type ℓ} → Option A → Task A
unwrap Option.none w = panicked
unwrap (Option.some a) w = ready (ok a, w)

-- The answer of a task, without what it has done.
abbrev pub answer {ℓ} :
    {A : Type ℓ} → Await (Result ManiaError A × World) → Await (Result ManiaError A)
answer (ready (r, w)) = ready r
answer panicked = panicked
answer waiting = waiting
