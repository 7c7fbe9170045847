-- ===== src/Cache/Pages.antt =====
-- mania/src/core/operation/cache_op.rs: iter_fetch_friends and iter_fetch_group on pages each of which
-- but the last has a cursor.
use mania.Base.{
  List, [], ◌∷◌, ◌++◌, map, append_assoc, ◌≡◌, ◌∙◌, refl, Option, some, none, true, Option-cases,
  inl, inr,
}
use mania.Base.Fault.{Result, ok}
use mania.Base.Map.{is_some}
use mania.Cache.{Cache}
use mania.Cache.Fetch.{search}
use mania.Cache.Paging.{Process, Answered, continue, received, iter_fetch}
use mania.Cache.Task.{ready, World, Reply, Request}
use mania.Errors.{ManiaError}

-- Each page but the last names a cursor.
abbrev pub Chained : {P C : Type 0} → (P → Option C) → P → List P → Type 0
Chained next_of p [] = next_of p ≡ none
Chained next_of p (q ∷ qs) = (is_some (next_of p) ≡ true) × Chained next_of q qs

-- The requests for these pages: each carries the cursor of the page before.
abbrev pub asks :
    {P C : Type 0} → (Option C → Request) → (P → Option C) → Option C → P → List P → List Request
asks ask next_of next p [] = ask next ∷ []
asks ask next_of next p (q ∷ qs) = ask next ∷ asks ask next_of (next_of p) q qs

abbrev pub foldl : {S P : Type 0} → (S → P → S) → S → List P → S
foldl add s [] = s
foldl add s (p ∷ ps) = foldl add (add s p) ps

abbrev pub or_else : {T : Type 0} → Option T → Option T → Option T
or_else none o = o
or_else (some v) o = some v

-- What the first page with a value has.
abbrev pub first : {P T : Type 0} → (P → Option T) → List P → Option T
first look [] = none
first look (p ∷ ps) = or_else (look p) (first look ps)

module _ {S T C : Type 0} (rest : Option C → S → Cache → Answered S T)
    (stop : Result ManiaError (Option T × S) → Cache → Answered S T) (s : S) (cache : Cache) where
  continue_last :
      (next : Option C)
      → next ≡ none
      → continue rest stop next (ok (none, s), cache) ≡ stop (ok (none, s)) cache
  unfolding continue
  continue_last none e = refl
  continue_last (some n) e = cc (e)

  continue_chained :
      (next : Option C)
      → is_some next ≡ true
      → continue rest stop next (ok (none, s), cache) ≡ rest next s cache
  unfolding continue
  continue_chained none e = cc (e)
  continue_chained (some n) e = refl

  continue_found :
      (next : Option C) (v : T)
      → continue rest stop next (ok (some v, s), cache) ≡ stop (ok (some v, s)) cache
  unfolding continue
  continue_found none v = refl
  continue_found (some n) v = refl

module _ {S P T C : Type 0} (ask : Option C → Request) (receive : Reply → Result ManiaError P)
    (next_of : P → Option C) (wrap : P → Reply)
    (receive-wrap : (p : P) → receive (wrap p) ≡ ok p) where
  module _ (process : Process S P T) where
    -- One turn, for a page of the right kind.
    turn :
        (next : Option C) (s : S) (p : P) (replies : List Reply) (cache : Cache)
        (sent : List Request)
        → iter_fetch ask receive next_of process next s (wrap p ∷ replies) cache sent
          ≡ continue
              (λ n s cache.
                iter_fetch ask receive next_of process n s replies cache (sent ++ (ask next ∷ [])))
              (λ r cache.
                ready
                  (r, record { cache = cache; replies = replies; sent = sent ++ (ask next ∷ []) }))
              (next_of p)
              (process s p cache)
    unfolding iter_fetch received
    turn next s p replies cache sent = rw (receive-wrap p) refl

  -- A process that collects takes every page.
  pub iter_fetch-collect :
      (add : S → P → S) (process : Process S P T)
      → ((s : S) (p : P) (cache : Cache) → process s p cache ≡ (ok (none, add s p), cache))
      → (next : Option C) (s : S) (p : P) (ps : List P) (replies : List Reply) (cache : Cache)
        (sent : List Request)
      → Chained next_of p ps
      → iter_fetch ask receive next_of process next s (map wrap (p ∷ ps) ++ replies) cache sent
        ≡ ready (
          ok (none, foldl add s (p ∷ ps)),
          record { cache = cache; replies = replies; sent = sent ++ asks ask next_of next p ps },
        )
  iter_fetch-collect add process h next s p [] replies cache sent e =
      turn process next s p replies cache sent
      ∙ (rw (h s p cache) (continue_last _ _ (add s p) cache (next_of p) e))
  iter_fetch-collect add process h next s p (q ∷ qs) replies cache sent (e, es) =
      turn process next s p _ cache sent
      ∙ (rw (h s p cache) (continue_chained _ _ (add s p) cache (next_of p) e)
          ∙ (iter_fetch-collect add process h (next_of p) (add s p) q qs replies cache
                (sent ++ (ask next ∷ [])) es
              ∙ rw (append_assoc sent (ask next ∷ []) (asks ask next_of (next_of p) q qs)) refl))

module _ {P T C : Type 0} (ask : Option C → Request) (receive : Reply → Result ManiaError P)
    (next_of : P → Option C) (wrap : P → Reply)
    (receive-wrap : (p : P) → receive (wrap p) ≡ ok p) where
  -- A search stops at the first page that has a value.
  pub iter_fetch-search :
      (look : P → Option T) (next : Option C) (p : P) (ps : List P) (replies : List Reply)
      (cache : Cache) (sent : List Request)
      → Chained next_of p ps
      → (w : World) × (iter_fetch ask receive next_of
            (search look)
            next
            tt
            (map wrap (p ∷ ps) ++ replies)
            cache
            sent
          ≡ ready (ok (first look (p ∷ ps), tt), w))
  iter_fetch-search look next p [] replies cache sent e =
      let now : World = record {
        cache = cache;
        replies = replies;
        sent = sent ++ (ask next ∷ []);
      } in
      elim (Option-cases (look p)) [
        | inl none_here ↦ (
          now,
          turn ask receive next_of wrap receive-wrap (search look) next tt p replies cache sent
              ∙ rw (none_here, or_else) (continue_last _ _ tt cache (next_of p) e),
        )
        | inr (v, found) ↦ (
          now,
          turn ask receive next_of wrap receive-wrap (search look) next tt p replies cache sent
              ∙ rw (found, or_else) (continue_found _ _ tt cache (next_of p) v),
        )
      ]
  iter_fetch-search look next p (q ∷ qs) replies cache sent (e, es) =
      let asked = sent ++ (ask next ∷ []) in
      let left = map wrap (q ∷ qs) ++ replies in
      let now : World = record { cache = cache; replies = left; sent = asked } in
      let more = iter_fetch-search look (next_of p) q qs replies cache asked es in
      elim (Option-cases (look p)) [
        | inl none_here ↦ (
          more.0,
          turn ask receive next_of wrap receive-wrap (search look) next tt p left cache sent
              ∙ rw (none_here, or_else) (continue_chained _ _ tt cache (next_of p) e ∙ more.1),
        )
        | inr (v, found) ↦ (
          now,
          turn ask receive next_of wrap receive-wrap (search look) next tt p left cache sent
              ∙ rw (found, or_else) (continue_found _ _ tt cache (next_of p) v),
        )
      ]
