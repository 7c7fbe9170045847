-- ===== src/Context/Keys.antt =====
-- The counter of a session, and the age of the stored keys.
pub mod Sequence
use mania.Base.{ℕ, ◌+◌, ◌-◌, ◌*◌, ◌/◌, ◌%◌, ◌^◌, List, [], ◌∷◌, Bool, true, false, ltb, ◌||◌}
use mania.Context.{Session, KeyStore}

-- `fetch_add(1)` on an `AtomicU16`.
unfoldable pub next_sequence : Session → ℕ × Session
next_sequence s = (s.sequence, record s { sequence = (s.sequence + 1) % 2 ^ 16 })

unfoldable pub set_sequence : ℕ → Session → Session
set_sequence seq s = record s { sequence = seq }

unfoldable pub is_empty : List ℕ → Bool
is_empty [] = true
is_empty (b ∷ bs) = false

-- `now` and the date of the session are in nanoseconds; `num_seconds` drops what is below a second.
-- A date in the future gives a negative number of seconds, where the subtraction here stops at 0.
unfoldable pub is_session_expired : ℕ → KeyStore → Bool
is_session_expired now k = ltb (15 * 86400) ((now - k.session.session_date) / 10 ^ 9)

unfoldable pub is_expired : ℕ → KeyStore → Bool
unfolding is_session_expired is_empty
is_expired now k = is_session_expired now k || (is_empty k.session.d2 || is_empty k.session.tgt)
