-- ===== src/Packet/Integers.antt =====
-- Integers of every width written and read back, and the lengths for which a read panics.
use mania.Base.{ℕ, ◌+◌, ◌^◌, ◌<◌, ◌≡◌, arith, List, [], ◌++◌, length, ◌⊎◌, leb, false}
use mania.Base.Bytes.{be16, be32, be64}
use mania.Base.Fault.{Fault, done, panic}
use mania.Base.Fault
use mania.Base.Int.{ℤ, pos, negsuc, to_unsigned, to_signed, ◌-ℤ◌}
use mania.Packet.Builder
use mania.Packet.Builder.{Build, ◌⨾◌, build}
use mania.Packet.Builder.Appends.{Appends-⨾, Appends-u8, Appends-u16, Appends-u32, Appends-u64}
use mania.Packet.Reader
use mania.Packet.Reader.{Reader, ◌>>=◌, ◌>>◌}
use mania.Packet.Reader.Reads.{Reads-u8, Reads-u16, Reads-u32, Reads-u64}
use mania.Packet.RoundTrip.{build_done}

-- The range of `i32`.
abbrev pub IsI32 : ℤ → Type 0
IsI32 (pos n) = n < 2 ^ 31
IsI32 (negsuc n) = n < 2 ^ 31

to_signed-to_unsigned_32 :
    (z : ℤ) → IsI32 z → (to_unsigned 32 z < 2 ^ 32) × (to_signed 32 (to_unsigned 32 z) ≡ z)
unfolding to_unsigned to_signed
to_signed-to_unsigned_32 (pos n) h = ground arith
to_signed-to_unsigned_32 (negsuc n) h = ground arith

abbrev pub write_integers : ℕ → ℕ → ℕ → ℕ → ℤ → Build
write_integers a b c d z =
    Builder.u8 a ⨾ Builder.u16 b ⨾ Builder.u32 c ⨾ Builder.u64 d ⨾ Builder.i32 z

abbrev pub read_integers : Reader (ℕ × ℕ × ℕ × ℕ × ℤ)
read_integers = do
  a ← Reader.u8
  b ← Reader.u16
  c ← Reader.u32
  d ← Reader.u64
  z ← Reader.i32
  Reader.pure (a, b, c, d, z)

-- Integers of every width, written one after another, are read back in order, if they are in
-- the range of their Rust types.
pub read-write_integers :
    (a b c d : ℕ) (z : ℤ)
    → a < 2 ^ 8
    → b < 2 ^ 16
    → c < 2 ^ 32
    → d < 2 ^ 64
    → IsI32 z
    → Fault.◌>>=◌ (build (write_integers a b c d z)) read_integers ≡ done ((a, b, c, d, z), [])
unfolding Builder.i32 Reader.i32
read-write_integers a b c d z ha hb hc hd hz =
    let (fits, back) = to_signed-to_unsigned_32 z hz in
    let w = to_unsigned 32 z in
    rw
      (build_done (
        Appends-⨾ (Appends-u8 a) (
          Appends-⨾ (Appends-u16 b)
            (Appends-⨾ (Appends-u32 c) (Appends-⨾ (Appends-u64 d) (Appends-u32 w))))))
      (rw ((Reads-u8 a).at (be16 b ++ (be32 c ++ (be64 d ++ be32 w)))) (
        rw ((Reads-u16 b hb).at (be32 c ++ (be64 d ++ be32 w))) (
          rw ((Reads-u32 c hc).at (be64 d ++ be32 w))
            (rw ((Reads-u64 d hd).at (be32 w)) (rw ((Reads-u32 w fits).at []) (rw back))))))

beyond :
    (n l : ℕ)
    → l < 2 ^ 63
    → (n < 4) ⊎ (l + 4 < n)
    → n < 2 ^ 32
    → leb (to_unsigned 64 (pos n -ℤ pos 4)) l ≡ false
unfolding to_unsigned ◌-ℤ◌
beyond n l size bad h = ground arith

-- A length field below 4, or beyond the end of the buffer, is a panic, whatever the callback does.
pub section_out_of_range {ℓ} :
    {T : Type ℓ} (r : Reader T) (n : ℕ) (rest : List ℕ)
    → n < 2 ^ 32
    → length rest < 2 ^ 63
    → (n < 4) ⊎ (length rest + 4 < n)
    → Reader.section r (be32 n ++ rest) ≡ panic
unfolding Reader.section Reader.section_with_addition Reader.split_to
section_out_of_range r n rest h size bad =
    rw ((Reads-u32 n h).at rest) (rw (beyond n (length rest) size bad h))
