-- ===== src/Sso/Sequence.antt =====
-- `SsoPacket::next_sequence` of mania/src/core/packet.rs: many threads take numbers from one static
-- counter, whose first caller sets it to a random offset.
pub mod Distinct
mod Tests
use mania.Base.{
  ℕ, zero, suc, ◌+◌, ◌%◌, ◌^◌, ◌<◌, ◌≤◌, ◌≡◌, ◌≢◌, ◌⊎◌, inl, inr, List, [], ◌∷◌, ◌++◌, length,
  arith, All, refl,
}

-- Where a thread stands in its call.
pub data Thread : Type 0 where
  -- at `compare_exchange(0, 1)`
  start : Thread
  -- at the store of the offset
  initializing : Thread
  -- in the loop that waits while the counter is 1
  waiting : Thread
  -- at `fetch_add(1)`
  ready : Thread
  returned : ℕ → Thread

-- `issued` lists the numbers that were returned, the last one first.
pub record System : Type 0 where
  pub sequence : ℕ
  pub before : List Thread
  pub current : Thread
  pub after : List Thread
  pub issued : List ℕ

-- The random offset is in 5000000..=9900000, as it is asked for. A thread that calls twice stands here
-- as two threads, and all accesses are to one variable, whose changes every thread sees in one order.
-- One atomic access of the thread that is scheduled, or a change of the scheduled thread.
pub data Step : System → System → Type 0 where
  exchange :
      (b a : List Thread) (is : List ℕ)
      → Step
          (record { sequence = 0; before = b; current = start; after = a; issued = is })
          (record { sequence = 1; before = b; current = initializing; after = a; issued = is })
  exchange_fails :
      (n : ℕ) (b a : List Thread) (is : List ℕ)
      → n ≢ 0
      → Step
          (record { sequence = n; before = b; current = start; after = a; issued = is })
          (record { sequence = n; before = b; current = waiting; after = a; issued = is })
  store :
      (n offset : ℕ) (b a : List Thread) (is : List ℕ)
      → 5000000 ≤ offset
      → offset ≤ 9900000
      → Step
          (record { sequence = n; before = b; current = initializing; after = a; issued = is })
          (record { sequence = offset; before = b; current = ready; after = a; issued = is })
  load :
      (n : ℕ) (b a : List Thread) (is : List ℕ)
      → n ≢ 1
      → Step
          (record { sequence = n; before = b; current = waiting; after = a; issued = is })
          (record { sequence = n; before = b; current = ready; after = a; issued = is })
  fetch_add :
      (n : ℕ) (b a : List Thread) (is : List ℕ)
      → Step
          (record { sequence = n; before = b; current = ready; after = a; issued = is })
          (record {
            sequence = (n + 1) % 2 ^ 32;
            before = b;
            current = returned n;
            after = a;
            issued = n ∷ is;
          })
  next :
      (n : ℕ) (t u : Thread) (b a : List Thread) (is : List ℕ)
      → Step
          (record { sequence = n; before = b; current = t; after = u ∷ a; issued = is })
          (record { sequence = n; before = t ∷ b; current = u; after = a; issued = is })
  previous :
      (n : ℕ) (t u : Thread) (b a : List Thread) (is : List ℕ)
      → Step
          (record { sequence = n; before = t ∷ b; current = u; after = a; issued = is })
          (record { sequence = n; before = b; current = t; after = u ∷ a; issued = is })

-- The threads that have not begun their calls.
abbrev pub AllStart : List Thread → Type 0
AllStart = All (λ t. t ≡ start)

pub data Reaches : System → Type 0 where
  initially :
      (b a : List Thread)
      → AllStart b
      → AllStart a
      → Reaches (record { sequence = 0; before = b; current = start; after = a; issued = [] })
  then : (s s' : System) → Reaches s → Step s s' → Reaches s'
