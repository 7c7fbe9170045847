-- ===== src/Packet/Reader.antt =====
-- `PacketReader`: each call takes bytes from the front of what is left, and panics when there are
-- too few.
pub mod Reads
use mania.Base.{ℕ, ◌-◌, bit_and, List, [], ◌++◌, if◌then◌else◌, ◌==◌, ltb, leb, length, take, drop}
use mania.Base.Bytes.{from_be}
use mania.Base.Utf8.{from_utf8_lossy}
use mania.Base.Fault.{Fault, done, panic}
use mania.Base.Fault
use mania.Base.Int.{ℤ, pos, ◌-ℤ◌, to_unsigned, to_signed}

-- A call on `&mut PacketReader`: it returns a value and leaves what has not been read.
abbrev pub Reader {ℓ} : Type ℓ → Type ℓ
Reader T = List ℕ → Fault (T × List ℕ)

infixl 5 ◌>>=◌ ◌>>◌
abbrev pub ◌>>=◌ {ℓ κ} : {A : Type ℓ} {B : Type κ} → Reader A → (A → Reader B) → Reader B
◌>>=◌ m f r = Fault.◌>>=◌ (m r) λ (a, rest). f a rest

abbrev pub ◌>>◌ {ℓ κ} : {A : Type ℓ} {B : Type κ} → Reader A → Reader B → Reader B
m >> k = m >>= λ _. k

abbrev pub pure {ℓ} : {A : Type ℓ} → A → Reader A
pure a r = done (a, r)

-- `Bytes::split_to(n)`: the first `n` bytes, or a panic.
unfoldable pub split_to : ℕ → Reader (List ℕ)
split_to n r = if leb n (length r) then done (take n r, drop n r) else panic

-- `get_u8` and the like: `n` bytes, most significant first.
unfoldable pub get_uint : ℕ → Reader ℕ
unfolding split_to
get_uint n = do bs ← split_to n; pure (from_be bs)

unfoldable pub u8 : Reader ℕ
u8 = get_uint 1

unfoldable pub u16 : Reader ℕ
u16 = get_uint 2

unfoldable pub u32 : Reader ℕ
u32 = get_uint 4

unfoldable pub u64 : Reader ℕ
u64 = get_uint 8

unfoldable pub i8 : Reader ℤ
i8 = do n ← u8; pure (to_signed 8 n)

unfoldable pub i16 : Reader ℤ
i16 = do n ← u16; pure (to_signed 16 n)

unfoldable pub i32 : Reader ℤ
i32 = do n ← u32; pure (to_signed 32 n)

unfoldable pub i64 : Reader ℤ
i64 = do n ← u64; pure (to_signed 64 n)

-- `split_off(0)` hands out all that is left.
unfoldable pub bytes : Reader (List ℕ)
bytes r = done (r, [])

unfoldable pub string : Reader (List ℕ)
unfolding bytes
string = do bs ← bytes; pure (from_utf8_lossy bs)

unfoldable pub skip : ℕ → Reader (Unit {0})
unfolding split_to
skip n = do bs ← split_to n; pure tt

unfoldable pub read_packet : ℕ → Reader (List ℕ)
read_packet count = split_to count

-- `f(&mut PacketReader::new(buffer))`: what `f` leaves of the buffer is dropped.
abbrev pub on_buffer {ℓ} : {T : Type ℓ} → Reader T → List ℕ → Reader T
on_buffer f buffer r = Fault.◌>>=◌ (f buffer) λ (t, _). done (t, r)

-- The prefix itself, in as many bytes as `P` says.
unfoldable pub prefix : ℕ → Reader ℕ
unfolding u8 u16 u32
prefix prefix_length =
    if prefix_length == 0
    then pure 0
    else if prefix_length == 1
    then u8
    else if prefix_length == 2
    then u16
    else if prefix_length == 4
    then u32
    else λ r. panic

-- Subtraction of `usize`, with the overflow check on.
abbrev pub minus_prefix : ℕ → ℕ → Reader ℕ
minus_prefix n k = if leb k n then pure (n - k) else λ r. panic

unfoldable pub read_with_length {ℓ} : {T : Type ℓ} → ℕ → Reader T → Reader T
read_with_length P f = do
  let prefix_length = bit_and P 7
  n ← prefix prefix_length
  length ← minus_prefix n (if ltb 0 (bit_and P 8) then prefix_length else 0)
  buffer ← split_to length
  on_buffer f buffer

-- A length below `N` turns into a huge `usize`, for which `split_to` panics.
unfoldable pub section_with_addition {ℓ} : {T : Type ℓ} → ℤ → Reader T → Reader T
section_with_addition N f = do
  n ← u32
  buffer ← split_to (to_unsigned 64 (pos n -ℤ N))
  on_buffer f buffer

unfoldable pub section {ℓ} : {T : Type ℓ} → Reader T → Reader T
section f = section_with_addition (pos 4) f

unfoldable pub section_16_with_addition {ℓ} : {T : Type ℓ} → ℤ → Reader T → Reader T
section_16_with_addition N f = do
  n ← u16
  buffer ← split_to (to_unsigned 64 (pos n -ℤ N))
  on_buffer f buffer

unfoldable pub section_16 {ℓ} : {T : Type ℓ} → Reader T → Reader T
section_16 f = section_16_with_addition (pos 2) f
