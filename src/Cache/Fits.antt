-- ===== src/Cache/Fits.antt =====
-- mania/src/core/cache.rs: which maps a mode has, and the tasks that keep them and do not panic.
use mania.Base.{
  ℕ, List, [], ◌∷◌, ◌++◌, ◌≡◌, refl, Option, some, none, Bool, true, false, if◌then◌else◌,
}
use mania.Base.Fault.{Result, ok, err}
use mania.Base.Map.{is_some}
use mania.Cache.{Cache, CacheMode, full, half, uncached, in_map}
use mania.Cache.Paging.{
  Process, Answered, continue, received, iter_fetch, iter_fetch_friends, iter_fetch_group,
  as_friends, as_members,
}
use mania.Cache.Task.{
  Task, World, Await, ready, panicked, waiting, question, resume, ◌>>=◌, ◌>>◌, return, load, unwrap,
  change, Reply, Request, FriendsPage, MembersPage,
}
use mania.Errors.{ManiaError}

abbrev pub Maps : CacheMode → Cache → Type 0
Maps full cache =
    (is_some cache.uin2uid ≡ true)
    × (is_some cache.uid2uin ≡ true)
    × (is_some cache.cached_friends ≡ true)
    × (is_some cache.cached_group_members ≡ true)
Maps half cache =
    (is_some cache.cached_friends ≡ true) × (is_some cache.cached_group_members ≡ true)
Maps uncached cache = Unit {0}

-- The cache has the mode, and the maps of that mode.
unfoldable pub Fits : CacheMode → Cache → Type 0
Fits mode cache = (cache.cache_mode ≡ mode) × Maps mode cache

-- No panic, and what is returned leaves a cache that fits.
unfoldable pub Safe : {A : Type 0} → CacheMode → Await (Result ManiaError A × World) → Type 0
unfolding Fits
Safe mode (ready (r, w)) = Fits mode w.cache
Safe mode panicked = ⊥
Safe mode waiting = Unit {0}

unfoldable pub Good : {A : Type 0} → CacheMode → Task A → Type 0
unfolding Fits Safe
Good mode m = (w : World) → Fits mode w.cache → Safe mode (m w)

pub is_some-in_map : {M : Type 0} (f : M → M) (o : Option M) → is_some (in_map f o) ≡ is_some o
is_some-in_map f none = refl
is_some-in_map f (some m) = refl

module _ {A B : Type 0} (mode : CacheMode) where
  resume-Safe :
      (r : Await (Result ManiaError A × World)) (f : A → Task B)
      → Safe mode r
      → ((a : A) → Good mode (f a))
      → Safe mode (resume (question f) r)
  unfolding Safe Good
  resume-Safe (ready (ok a, w)) f s g = g a w s
  resume-Safe (ready (err e, w)) f s g = s
  resume-Safe panicked f s g = s
  resume-Safe waiting f s g = s

  pub >>=-Good :
      (m : Task A) (f : A → Task B)
      → Good mode m
      → ((a : A) → Good mode (f a))
      → Good mode (m >>= f)
  unfolding Good
  >>=-Good m f g h w fits = resume-Safe (m w) f (g w fits) h

  pub >>-Good : (m : Task A) (k : Task B) → Good mode m → Good mode k → Good mode (m >> k)
  >>-Good m k g h = >>=-Good m (λ _. k) g (λ _. h)

  pub unwrap-Good :
      (o : Option A) (f : A → Task B)
      → is_some o ≡ true
      → ((a : A) → Good mode (f a))
      → Good mode (unwrap o >>= f)
  unfolding Good
  unwrap-Good none f e h w fits = absurd (cc (e))
  unwrap-Good (some a) f e h w fits = h a w fits

module _ {B : Type 0} (mode : CacheMode) where
  pub return-Good : (r : Result ManiaError B) → Good mode (return r)
  unfolding Good Safe
  return-Good r w fits = fits

  pub load-Good :
      (f : Cache → Task B)
      → ((cache : Cache) → Fits mode cache → Good mode (f cache))
      → Good mode (load >>= f)
  unfolding Good
  load-Good f h w fits = h w.cache fits w fits

  pub if-Good :
      (b : Bool) (m k : Task B)
      → Good mode m
      → (b ≡ false → Good mode k)
      → Good mode (if b then m else k)
  if-Good true m k g h = g
  if-Good false m k g h = h refl

pub change-Good :
    (mode : CacheMode) (f : Cache → Cache)
    → ((cache : Cache) → Fits mode cache → Fits mode (f cache))
    → Good mode (change f)
unfolding Good Safe
change-Good mode f h w fits = h w.cache fits

module _ {S T : Type 0} (mode : CacheMode) where
  -- A `process` that keeps the maps.
  unfoldable pub Keeps : {P : Type 0} → Process S P T → Type 0
  Keeps {P} process =
      (s : S) (page : P) (cache : Cache) → Fits mode cache → Fits mode (process s page cache).1

  continue-Safe :
      {C : Type 0} (rest : Option C → S → Cache → Answered S T)
      (stop : Result ManiaError (Option T × S) → Cache → Answered S T) (next : Option C)
      (r : Result ManiaError (Option T × S) × Cache)
      → ((n : Option C) (s : S) (cache : Cache) → Fits mode cache → Safe mode (rest n s cache))
      → ((r : Result ManiaError (Option T × S)) (cache : Cache)
          → Fits mode cache
          → Safe mode (stop r cache))
      → Fits mode r.1
      → Safe mode (continue rest stop next r)
  unfolding continue
  continue-Safe rest stop next (err e, cache) g h fits = h (err e) cache fits
  continue-Safe rest stop next (ok (some v, s), cache) g h fits = h (ok (some v, s)) cache fits
  continue-Safe rest stop none (ok (none, s), cache) g h fits = h (ok (none, s)) cache fits
  continue-Safe rest stop (some n) (ok (none, s), cache) g h fits = g (some n) s cache fits

  module _ {P C : Type 0} (ask : Option C → Request) (receive : Reply → Result ManiaError P)
      (next_of : P → Option C) (process : Process S P T) (keeps : Keeps process) where
    received-Safe :
        (rest : Option C → S → Cache → Answered S T)
        (stop : Result ManiaError (Option T × S) → Cache → Answered S T) (s : S) (cache : Cache)
        (r : Result ManiaError P)
        → ((n : Option C) (s : S) (cache : Cache) → Fits mode cache → Safe mode (rest n s cache))
        → ((r : Result ManiaError (Option T × S)) (cache : Cache)
            → Fits mode cache
            → Safe mode (stop r cache))
        → Fits mode cache
        → Safe mode (received ask receive next_of process rest stop s cache r)
    unfolding received Keeps
    received-Safe rest stop s cache (err e) g h fits = h (err e) cache fits
    received-Safe rest stop s cache (ok page) g h fits =
        continue-Safe rest stop (next_of page) (process s page cache) g h (keeps s page cache fits)

    iter_fetch-Safe :
        (next : Option C) (s : S) (replies : List Reply) (cache : Cache) (sent : List Request)
        → Fits mode cache
        → Safe mode (iter_fetch ask receive next_of process next s replies cache sent)
    unfolding iter_fetch Safe
    iter_fetch-Safe next s [] cache sent fits = tt
    iter_fetch-Safe next s (reply ∷ replies) cache sent fits =
        let asked = sent ++ (ask next ∷ []) in
        received-Safe (λ n s cache. iter_fetch ask receive next_of process n s replies cache asked)
          (λ r cache. ready (r, record { cache = cache; replies = replies; sent = asked })) s cache
          (receive reply) (λ n s cache fits. iter_fetch-Safe n s replies cache asked fits)
          (λ r cache fits. fits) fits

  pub iter_fetch_friends-Good :
      (process : Process S FriendsPage T) (s : S)
      → Keeps process
      → Good mode (iter_fetch_friends process s)
  unfolding iter_fetch_friends Good
  iter_fetch_friends-Good process s keeps w fits =
      iter_fetch-Safe _ as_friends (λ page. page.next_uin) process keeps none s w.replies w.cache
        w.sent fits

  pub iter_fetch_group-Good :
      (group_uin : ℕ) (process : Process S MembersPage T) (s : S)
      → Keeps process
      → Good mode (iter_fetch_group group_uin process s)
  unfolding iter_fetch_group Good
  iter_fetch_group-Good group_uin process s keeps w fits =
      iter_fetch-Safe _ as_members (λ page. page.token) process keeps none s w.replies w.cache
        w.sent fits
