-- ===== src/Sso/Sequence/Distinct.antt =====
-- Whatever the threads do in whatever order, no number is returned twice.
use mania.Base.{ℕ, ◌+◌, ◌%◌, ◌^◌, ◌<◌, ◌≤◌, ◌≡◌, ◌≢◌, refl, List, [], ◌∷◌, length, arith, All}
use mania.Sso.Sequence.{
  Thread, start, initializing, waiting, ready, returned, System, Step, exchange, exchange_fails,
  store, load, fetch_add, next, previous, Reaches, initially, then, AllStart,
}

-- The numbers that were returned: each is above those before it, and all are below the counter.
abbrev pub Descending : ℕ → List ℕ → Type 0
Descending n [] = Unit {0}
Descending n (i ∷ is) = (i < n) × ((5000000 ≤ i) × Descending i is)

raise_Descending : (n m : ℕ) (is : List ℕ) → n ≤ m → Descending n is → Descending m is
raise_Descending n m [] le h = h
raise_Descending n m (i ∷ is) le (lt, h) = (omega (arith, lt, le), h)

-- What the counter is while a thread stands where it does.
abbrev FitsThread : ℕ → Thread → Type 0
FitsThread n start = Unit {0}
FitsThread n initializing = n ≡ 1
FitsThread n waiting = 1 ≤ n
FitsThread n ready = 5000000 ≤ n
FitsThread n (returned i) = Unit {0}

abbrev one_if_initializing : Thread → ℕ
one_if_initializing initializing = 1
one_if_initializing _ = 0

abbrev initializers : List Thread → ℕ
initializers [] = 0
initializers (t ∷ ts) = one_if_initializing t + initializers ts

raise_FitsThread :
    (n m : ℕ) (t : Thread) → one_if_initializing t ≡ 0 → n ≤ m → FitsThread n t → FitsThread m t
raise_FitsThread n m start e le h = h
raise_FitsThread n m initializing e le h = omega (arith, e)
raise_FitsThread n m waiting e le h = omega (arith, h, le)
raise_FitsThread n m ready e le h = omega (arith, h, le)
raise_FitsThread n m (returned i) e le h = h

raise_all :
    (n m : ℕ) (ts : List Thread)
    → initializers ts ≡ 0
    → n ≤ m
    → All (FitsThread n) ts
    → All (FitsThread m) ts
raise_all n m [] e le h = h
raise_all n m (t ∷ ts) e le (ht, hs) =
    (raise_FitsThread n m t (omega (arith, e)) le ht, raise_all n m ts (omega (arith, e)) le hs)

not_initializing : (n : ℕ) (t : Thread) → n ≢ 1 → FitsThread n t → one_if_initializing t ≡ 0
not_initializing n start ne h = refl
not_initializing n initializing ne h = elim (ne h) [ ]
not_initializing n waiting ne h = refl
not_initializing n ready ne h = refl
not_initializing n (returned i) ne h = refl

no_initializers : (n : ℕ) (ts : List Thread) → n ≢ 1 → All (FitsThread n) ts → initializers ts ≡ 0
no_initializers n [] ne h = refl
no_initializers n (t ∷ ts) ne (ht, hs) =
    omega (arith, not_initializing n t ne ht, no_initializers n ts ne hs)

record IsSound (s : System) : Type 0 where
  phase : 2 ≤ s.sequence → 5000000 ≤ s.sequence
  bound : s.sequence ≤ 9900000 + length s.issued
  single : initializers s.before + one_if_initializing s.current + initializers s.after ≤ 1
  before : All (FitsThread s.sequence) s.before
  current : FitsThread s.sequence s.current
  after : All (FitsThread s.sequence) s.after
  issued : Descending s.sequence s.issued

step-IsSound :
    (s s' : System) → Step s s' → length s'.issued + 9900002 < 2 ^ 32 → IsSound s → IsSound s'
step-IsSound _ _ (exchange b a is) fits h =
    let nb = no_initializers 0 b (omega arith) h.before in
    let na = no_initializers 0 a (omega arith) h.after in
    record {
      phase = λ e. omega (arith, e);
      bound = omega arith;
      single = omega (arith, nb, na);
      before = raise_all 0 1 b nb (omega arith) h.before;
      current = refl;
      after = raise_all 0 1 a na (omega arith) h.after;
      issued = raise_Descending 0 1 is (omega arith) h.issued;
    }
step-IsSound _ _ (exchange_fails n b a is ne) fits h = record {
  phase = h.phase;
  bound = h.bound;
  single = h.single;
  before = h.before;
  current = omega (arith, ne);
  after = h.after;
  issued = h.issued;
}
step-IsSound _ _ (store n offset b a is low high) fits h =
    let single = h.single in
    let nb : initializers b ≡ 0 = omega (arith, single) in
    let na : initializers a ≡ 0 = omega (arith, single) in
    let one = h.current in
    let le : n ≤ offset = omega (arith, one, low) in
    record {
      phase = λ e. low;
      bound = omega (arith, high);
      single = omega (arith, nb, na);
      before = raise_all n offset b nb le h.before;
      current = low;
      after = raise_all n offset a na le h.after;
      issued = raise_Descending n offset is le h.issued;
    }
step-IsSound _ _ (load n b a is ne) fits h =
    let positive = h.current in
    record {
      phase = h.phase;
      bound = h.bound;
      single = h.single;
      before = h.before;
      current = h.phase (omega (arith, positive, ne));
      after = h.after;
      issued = h.issued;
    }
step-IsSound _ _ (fetch_add n b a is) fits h =
    let large = h.current in
    let bound = h.bound in
    let up : (n + 1) % 2 ^ 32 ≡ n + 1 = omega (arith, bound, fits) in
    let nb = no_initializers n b (omega (arith, large)) h.before in
    let na = no_initializers n a (omega (arith, large)) h.after in
    record {
      phase = λ e. omega (arith, up, large);
      bound = omega (arith, up, bound);
      single = omega (arith, nb, na);
      before = raise_all n ((n + 1) % 2 ^ 32) b nb (omega (arith, up)) h.before;
      current = tt;
      after = raise_all n ((n + 1) % 2 ^ 32) a na (omega (arith, up)) h.after;
      issued = (omega (arith, up), (large, h.issued));
    }
step-IsSound _ _ (next n t u b a is) fits h = record {
  phase = h.phase;
  bound = h.bound;
  single = let single = h.single in omega (arith, single);
  before = (h.current, h.before);
  current = h.after.0;
  after = h.after.1;
  issued = h.issued;
}
step-IsSound _ _ (previous n t u b a is) fits h = record {
  phase = h.phase;
  bound = h.bound;
  single = let single = h.single in omega (arith, single);
  before = h.before.1;
  current = h.before.0;
  after = (h.current, h.after);
  issued = h.issued;
}

issued_grows : (s s' : System) → Step s s' → length s.issued ≤ length s'.issued
issued_grows _ _ (exchange b a is) = omega arith
issued_grows _ _ (exchange_fails n b a is ne) = omega arith
issued_grows _ _ (store n offset b a is low high) = omega arith
issued_grows _ _ (load n b a is ne) = omega arith
issued_grows _ _ (fetch_add n b a is) = omega arith
issued_grows _ _ (next n t u b a is) = omega arith
issued_grows _ _ (previous n t u b a is) = omega arith

AllStart-FitsThread : (ts : List Thread) → AllStart ts → All (FitsThread 0) ts
AllStart-FitsThread [] h = tt
AllStart-FitsThread (t ∷ ts) (e, h) = (rw (e) tt, AllStart-FitsThread ts h)

AllStart-initializers : (ts : List Thread) → AllStart ts → initializers ts ≡ 0
AllStart-initializers [] h = refl
AllStart-initializers (t ∷ ts) (e, h) = rw (e, AllStart-initializers ts h) refl

Reaches-IsSound : (s : System) → Reaches s → length s.issued + 9900002 < 2 ^ 32 → IsSound s
Reaches-IsSound _ (initially b a hb ha) fits =
    let nb = AllStart-initializers b hb in
    let na = AllStart-initializers a ha in
    record {
      phase = λ e. omega (arith, e);
      bound = omega arith;
      single = omega (arith, nb, na);
      before = AllStart-FitsThread b hb;
      current = tt;
      after = AllStart-FitsThread a ha;
      issued = tt;
    }
Reaches-IsSound s' (then s _ reached step) fits =
    let more = issued_grows s s' step in
    step-IsSound s s' step fits (Reaches-IsSound s reached (omega (arith, more, fits)))

-- However the calls of any number of threads are interleaved, the numbers that were returned are
-- 5000000 or more, each is greater than those returned before it, so that no two are equal, and all
-- are below the counter, as long as fewer than 2^32 - 9900002 numbers were returned.
pub Reaches-Descending :
    (s : System) → Reaches s → length s.issued + 9900002 < 2 ^ 32 → Descending s.sequence s.issued
Reaches-Descending s reached fits = (Reaches-IsSound s reached fits).issued
