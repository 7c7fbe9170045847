-- ===== src/Packet/Builder.antt =====
-- `PacketBuilder`: each method appends to the buffer, or writes a length back into it.
-- A chain of calls `p.f().g()` is `f ⨾ g`, and the closure `|p| p` is `unchanged`.
pub mod Appends
use mania.Base.{
  ℕ, ◌+◌, ◌-◌, ◌%◌, ◌<◌, bit_and, bit_or, List, [], ◌∷◌, ◌++◌, if◌then◌else◌, ◌==◌, ltb, leb, Bool,
  true, false, length, take, drop,
}
use mania.Base.Bytes.{be16, be32, be64}
use mania.Base.Fault.{Fault, done, panic, ◌>>=◌}
use mania.Base.Int.{ℤ, pos, negsuc, ◌+ℤ◌, ◌-ℤ◌, to_unsigned}

-- The builder's only field is its buffer.
abbrev pub PacketBuilder : Type 0
PacketBuilder = List ℕ

abbrev pub Build : Type 0
Build = PacketBuilder → Fault PacketBuilder

infixr 6 ◌⨾◌
abbrev pub ◌⨾◌ : Build → Build → Build
◌⨾◌ f g p = f p >>= g

abbrev pub unchanged : Build
unchanged p = done p

-- The const generics `P` of the length prefixes.
abbrev pub prefix_none : ℕ
prefix_none = 0

abbrev pub prefix_u8 : ℕ
prefix_u8 = 1

abbrev pub prefix_u16 : ℕ
prefix_u16 = 2

abbrev pub prefix_u32 : ℕ
prefix_u32 = 4

abbrev pub prefix_length_only : ℕ
prefix_length_only = 0

abbrev pub prefix_with : ℕ
prefix_with = 8

abbrev pub new : PacketBuilder
new = []

unfoldable pub bytes : List ℕ → Build
bytes bs p = done (p ++ bs)

unfoldable pub u8 : ℕ → Build
u8 value p = done (p ++ (value ∷ []))

unfoldable pub u16 : ℕ → Build
u16 value p = done (p ++ be16 value)

unfoldable pub u32 : ℕ → Build
u32 value p = done (p ++ be32 value)

unfoldable pub u64 : ℕ → Build
u64 value p = done (p ++ be64 value)

unfoldable pub i8 : ℤ → Build
i8 value = u8 (to_unsigned 8 value)

unfoldable pub i16 : ℤ → Build
i16 value = u16 (to_unsigned 16 value)

unfoldable pub i32 : ℤ → Build
i32 value = u32 (to_unsigned 32 value)

unfoldable pub i64 : ℤ → Build
i64 value = u64 (to_unsigned 64 value)

-- A text is its UTF-8 bytes.
unfoldable pub string : List ℕ → Build
string s = bytes s

unfoldable pub packet : Build → Build
packet f p = f p

-- `write_u16(&mut buffer[start..], …)` and the like: bytes written over those at `start`.
unfoldable pub overwrite : ℕ → List ℕ → List ℕ → Fault (List ℕ)
overwrite start new_bytes buffer =
    if leb (start + length new_bytes) (length buffer)
    then done (take start buffer ++ (new_bytes ++ drop (start + length new_bytes) buffer))
    else panic

-- Subtraction of `usize`, with the overflow check on.
unfoldable pub sub_usize : ℕ → ℕ → Fault ℕ
sub_usize a b = if leb b a then done (a - b) else panic

-- A length of `prefix_length` bytes, as the two matches on it write it.
unfoldable pub prefix_bytes : ℕ → ℤ → Fault (List ℕ)
prefix_bytes prefix_length value =
    if prefix_length == 1
    then done (to_unsigned 8 value ∷ [])
    else if prefix_length == 2
    then done (be16 (to_unsigned 16 value))
    else if prefix_length == 4
    then done (be32 (to_unsigned 32 value))
    else panic

unfoldable pub write_with_length : ℕ → ℤ → Build → Build
write_with_length P A f p =
    let prefix_length = bit_and P 7 in
    if prefix_length == 0 then f p else do
      zeros ← prefix_bytes prefix_length (pos 0)
      let ori_length = length (p ++ zeros)
      this ← f (p ++ zeros)
      closure_called_length ← sub_usize (length this) ori_length
      let counted =
          if ltb 0 (bit_and P 8)
          then closure_called_length + prefix_length
          else closure_called_length
      field ← prefix_bytes prefix_length (pos counted +ℤ A)
      overwrite (ori_length - prefix_length) field this

-- u32 | prefix
unfoldable pub section_with_addition : ℤ → Build → Build
section_with_addition N f p = do
  let start = length p
  this ← f (p ++ be32 0)
  written ← sub_usize (length this) start
  overwrite start (be32 (to_unsigned 32 (pos written -ℤ pos 4 +ℤ N))) this

unfoldable pub section : Build → Build
section f = section_with_addition (pos 4) f

-- `len > u16::MAX as isize`
abbrev pub exceeds_u16 : ℤ → Bool
exceeds_u16 (pos n) = ltb 0xFFFF n
exceeds_u16 (negsuc n) = false

-- u16 | prefix
unfoldable pub section_16_with_addition : ℤ → Build → Build
section_16_with_addition N f p = do
  let start = length p
  this ← f (p ++ be16 0)
  written ← sub_usize (length this) start
  let len = pos written -ℤ pos 2 +ℤ N
  if exceeds_u16 len then panic else overwrite start (be16 (to_unsigned 16 len)) this

unfoldable pub section_16 : Build → Build
section_16 f = section_16_with_addition (pos 2) f

-- `PacketBuilder::new()…build()`
unfoldable pub build : Build → Fault (List ℕ)
build f = f new
