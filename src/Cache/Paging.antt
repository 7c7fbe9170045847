-- ===== src/Cache/Paging.antt =====
-- mania/src/core/operation/cache_op.rs: iter_fetch_friends and iter_fetch_group. Both loops are
-- `iter_fetch`, a recursion on the answers: it asks, stops where `process` finds a value or fails, and
-- goes on with the cursor of the page. `process` keeps what it captures in `S`, and may change the cache.
use mania.Base.{ℕ, List, [], ◌∷◌, ◌++◌, Option, some, none}
use mania.Base.Fault.{Result, ok, err}
use mania.Cache.{Cache}
use mania.Cache.Task.{
  Await, waiting, ready, Task, World, Reply, refused, friends_page, members_page, other_event,
  Request, fetch_friends, fetch_members, FriendsPage, MembersPage, generic,
}
use mania.Errors.{ManiaError, internal_business_error}

abbrev pub Process : Type 0 → Type 0 → Type 0 → Type 0
Process S P T = S → P → Cache → Result ManiaError (Option T × S) × Cache

abbrev pub Answered : Type 0 → Type 0 → Type 0
Answered S T = Await (Result ManiaError (Option T × S) × World)

module _ {S T C : Type 0} where
  -- After `process`: stop with a value or an error, go on with the cursor, or break where there is none.
  unfoldable pub continue :
      (Option C → S → Cache → Answered S T)
      → (Result ManiaError (Option T × S) → Cache → Answered S T)
      → Option C
      → Result ManiaError (Option T × S) × Cache
      → Answered S T
  continue rest stop next (err e, cache) = stop (err e) cache
  continue rest stop next (ok (some v, s), cache) = stop (ok (some v, s)) cache
  continue rest stop none (ok (none, s), cache) = stop (ok (none, s)) cache
  continue rest stop (some n) (ok (none, s), cache) = rest (some n) s cache

module _ {S P T C : Type 0} (ask : Option C → Request) (receive : Reply → Result ManiaError P)
    (next_of : P → Option C) (process : Process S P T) where
  unfoldable pub received :
      (Option C → S → Cache → Answered S T)
      → (Result ManiaError (Option T × S) → Cache → Answered S T)
      → S
      → Cache
      → Result ManiaError P
      → Answered S T
  received rest stop s cache (err e) = stop (err e) cache
  received rest stop s cache (ok page) = continue rest stop (next_of page) (process s page cache)

  unfoldable pub iter_fetch : Option C → S → List Reply → Cache → List Request → Answered S T
  unfolding received continue
  iter_fetch next s [] cache sent = waiting
  iter_fetch next s (reply ∷ replies) cache sent =
      let asked = sent ++ (ask next ∷ []) in
      received (λ n s cache. iter_fetch n s replies cache asked)
        (λ r cache. ready (r, record { cache = cache; replies = replies; sent = asked })) s cache
        (receive reply)

-- The answer as the event that was asked for, which `downcast_mut_major_event` tests.
unfoldable pub as_friends : Reply → Result ManiaError FriendsPage
as_friends (refused e) = err (internal_business_error e)
as_friends (friends_page page) = ok page
as_friends (members_page page) = generic "Downcast error"
as_friends other_event = generic "Downcast error"

unfoldable pub as_members : Reply → Result ManiaError MembersPage
as_members (refused e) = err (internal_business_error e)
as_members (friends_page page) = generic "Downcast error"
as_members (members_page page) = ok page
as_members other_event = generic "Downcast error"

unfoldable pub iter_fetch_friends :
    {S T : Type 0} → Process S FriendsPage T → S → Task (Option T × S)
unfolding iter_fetch as_friends
iter_fetch_friends process s w =
    iter_fetch fetch_friends as_friends (λ page. page.next_uin) process none s w.replies w.cache
      w.sent

unfoldable pub iter_fetch_group :
    {S T : Type 0} → ℕ → Process S MembersPage T → S → Task (Option T × S)
unfolding iter_fetch as_members
iter_fetch_group group_uin process s w =
    iter_fetch (fetch_members group_uin) as_members (λ page. page.token) process none s w.replies
      w.cache w.sent
