-- ===== src/Context/Keys/Sequence.antt =====
-- The sequence numbers of a session, taken one after the other.
use mania.Base.{ℕ, zero, suc, ◌+◌, ◌%◌, ◌^◌, ◌<◌, ◌≡◌, ◌≢◌, arith}
use mania.Context.{Session}
use mania.Context.Keys.{next_sequence}

-- The session after `n` calls.
unfoldable pub after_calls : ℕ → Session → Session
after_calls zero s = s
after_calls (suc n) s = after_calls n (next_sequence s).1

-- The number that the call behind `n` others returns.
abbrev pub sequence_at : ℕ → Session → ℕ
sequence_at n s = (next_sequence (after_calls n s)).0

sequence_at-mod :
    (n : ℕ) (s : Session) → s.sequence < 2 ^ 16 → sequence_at n s ≡ (s.sequence + n) % 2 ^ 16
unfolding after_calls next_sequence
sequence_at-mod zero s h = omega arith
sequence_at-mod (suc n) s h = omega (arith, sequence_at-mod n (next_sequence s).1 (omega arith))

-- Two calls with fewer than 2^16 calls from one to the other return different numbers.
pub sequence_at-distinct :
    (i j : ℕ) (s : Session)
    → s.sequence < 2 ^ 16
    → i < j
    → j < i + 2 ^ 16
    → sequence_at i s ≢ sequence_at j s
sequence_at-distinct i j s h lt near e =
    omega (arith, e, sequence_at-mod i s h, sequence_at-mod j s h)
