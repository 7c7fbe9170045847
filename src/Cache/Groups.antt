-- ===== src/Cache/Groups.antt =====
-- mania/src/core/operation/cache_op.rs: iter_fetch_group on the pages of a group.
use mania.Base.{
  ℕ, List, [], ◌∷◌, ◌++◌, map, append-nil, append_assoc, ◌≡◌, ◌∙◌, ap, sym, refl, Option, some,
  none, Bool, Bool-cases, inl, inr,
}
use mania.Base.Fault.{Result, ok}
use mania.Base.Map.{number_key, text_key}
use mania.Cache.{Cache}
use mania.Cache.Fetch.{find, opt_map, search, ok_or, collect_members}
use mania.Cache.Pages.{Chained, asks, foldl, first, or_else, iter_fetch-collect, iter_fetch-search}
use mania.Cache.Paging.{iter_fetch_group, as_members}
use mania.Cache.Task.{
  ready, World, Reply, members_page, MembersPage, Request, fetch_members, answer, generic, resume,
  question,
}
use mania.Entity.{BotGroupMember}
use mania.Errors.{ManiaError}

-- All members that the pages list.
abbrev pub members_of : List MembersPage → List BotGroupMember
members_of [] = []
members_of (page ∷ pages) = page.group_members ++ members_of pages

abbrev pub next_token : MembersPage → Option (List ℕ)
next_token page = page.token

-- The answers of the server that hold these pages.
abbrev pub replies_of : MembersPage → List MembersPage → List Reply → List Reply
replies_of p ps replies = map members_page (p ∷ ps) ++ replies

pub as_members-wrap : (p : MembersPage) → as_members (members_page p) ≡ ok p
unfolding as_members
as_members-wrap p = refl

foldl-members :
    (s : List BotGroupMember) (pages : List MembersPage)
    → foldl (λ s page. s ++ page.group_members) s pages ≡ s ++ members_of pages
foldl-members s [] = sym (append-nil s)
foldl-members s (p ∷ ps) =
    foldl-members (s ++ p.group_members) ps ∙ append_assoc s p.group_members (members_of ps)

pub iter_fetch_group-collect_members :
    (group_uin : ℕ) (p : MembersPage) (ps : List MembersPage) (replies : List Reply) (cache : Cache)
    (sent : List Request)
    → Chained next_token p ps
    → iter_fetch_group group_uin collect_members []
        (record { cache = cache; replies = replies_of p ps replies; sent = sent })
      ≡ ready (
        ok (none, members_of (p ∷ ps)),
        record {
          cache = cache;
          replies = replies;
          sent = sent ++ asks (fetch_members group_uin) next_token none p ps;
        },
      )
unfolding iter_fetch_group collect_members
iter_fetch_group-collect_members group_uin p ps replies cache sent chained =
    iter_fetch-collect (fetch_members group_uin) as_members next_token members_page as_members-wrap
      (λ s page. s ++ page.group_members) collect_members (λ s page cache. refl) none [] p ps
      replies cache sent chained
    ∙ rw (foldl-members [] (p ∷ ps)) refl

find-append :
    {A : Type 0} (test : A → Bool) (xs ys : List A)
    → find test (xs ++ ys) ≡ or_else (find test xs) (find test ys)
find-append test [] ys = refl
find-append test (x ∷ xs) ys = elim (Bool-cases (test x)) [
  | inl here ↦ rw (here) refl
  | inr away ↦ rw (away) (find-append test xs ys)
]

opt_map-or_else :
    {A B : Type 0} (f : A → B) (o o' : Option A)
    → opt_map f (or_else o o') ≡ or_else (opt_map f o) (opt_map f o')
opt_map-or_else f none o' = refl
opt_map-or_else f (some a) o' = refl

-- The first page with a hit has the first hit of all pages.
first-find :
    {B : Type 0} (test : BotGroupMember → Bool) (f : BotGroupMember → B) (pages : List MembersPage)
    → first (λ (page : MembersPage). opt_map f (find test page.group_members)) pages
      ≡ opt_map f (find test (members_of pages))
first-find test f [] = refl
first-find test f (p ∷ ps) =
    ap (or_else (opt_map f (find test p.group_members))) (first-find test f ps)
    ∙ sym (
        ap (opt_map f) (find-append test p.group_members (members_of ps))
        ∙ opt_map-or_else f (find test p.group_members) (find test (members_of ps)))

-- What is answered for a member that the server lists, or does not.
abbrev pub member_or_error : {A : Type 0} → Option A → Result ManiaError A
member_or_error none = generic "Member not found"
member_or_error (some a) = ok a

pub answer-ok_or :
    {A : Type 0} (o : Option A) (w : World)
    → answer (ok_or "Member not found" o w) ≡ ready (member_or_error o)
answer-ok_or none w = refl
answer-ok_or (some a) w = refl

-- The search in the pages themselves.
pub answer-search :
    {B : Type 0} (test : BotGroupMember → Bool) (f : BotGroupMember → B) (group_uin : ℕ)
    (p : MembersPage) (ps : List MembersPage) (w : World) (replies : List Reply)
    → w.replies ≡ replies_of p ps replies
    → Chained next_token p ps
    → answer (
        resume (question (λ res. ok_or "Member not found" res.0)) (
          iter_fetch_group group_uin
            (search (λ page. opt_map f (find test page.group_members)))
            tt
            w))
      ≡ ready (member_or_error (opt_map f (find test (members_of (p ∷ ps)))))
unfolding iter_fetch_group
answer-search test f group_uin p ps w replies e chained =
    let look = λ (page : MembersPage). opt_map f (find test page.group_members) in
    let run =
      iter_fetch-search (fetch_members group_uin) as_members next_token members_page as_members-wrap
        look none p ps replies w.cache w.sent chained in
    rw (e, run.1)
      (answer-ok_or (first look (p ∷ ps)) run.0
        ∙ ap (λ o. ready (member_or_error o)) (first-find test f (p ∷ ps)))
