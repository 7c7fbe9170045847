-- ===== src/Packet/RoundTrip.antt =====
-- What `PacketBuilder` writes, `PacketReader` reads back with the call of the same name.
use mania.Base.{ℕ, ◌+◌, ◌^◌, ◌<◌, ◌≡◌, arith, List, [], length, bit_and}
use mania.Base.Fault.{done, ◌>>=◌}
use mania.Base.Int.{pos}
use mania.Packet.Builder
use mania.Packet.Builder.{Build, ◌⨾◌, build}
use mania.Packet.Builder.Appends.{
  Appends, Appends-⨾, Appends-section, Appends-section_16_with_addition, Appends-write_with_length,
  IsWidth, own_length,
}
use mania.Packet.Reader
use mania.Packet.Reader.{Reader}
use mania.Packet.Reader.Reads.{
  Reads, ReadsAll, Reads-section, Reads-section_16_with_addition, Reads-read_with_length,
}

-- A chain of calls, run on the empty buffer.
pub build_done : {f : Build} {out : List ℕ} → Appends f out → build f ≡ done out
unfolding build
build_done F = F.at []

build_then {ℓ} :
    {T : Type ℓ} {f g : Build} {front tail : List ℕ} {r : Reader T} {t : T}
    → Appends f front
    → Appends g tail
    → Reads r front t
    → (build (f ⨾ g) >>= r) ≡ done (t, tail)
build_then {tail} F G R = rw (build_done (Appends-⨾ F G)) (R.at tail)

module _ {ℓ} {T : Type ℓ} {f g : Build} {out tail : List ℕ} {r : Reader T} {t : T} where
  -- A section around what `f` appends, with `tail` behind it: `section` of the reader gives its
  -- callback exactly the bytes of `f` and leaves `tail`, if the length fits 32 bits.
  pub section-build-section :
      Appends f out
      → Appends g tail
      → ReadsAll r out t
      → length out + 4 < 2 ^ 32
      → (build (Builder.section f ⨾ g) >>= Reader.section r) ≡ done (t, tail)
  section-build-section F G R fits = build_then (Appends-section F) G (Reads-section R fits)

  -- A 16-bit section with addition `n` around what `f` appends, with `tail` behind it: the reader's
  -- call with the same addition gives its callback exactly the bytes of `f` and leaves `tail`, if
  -- the length with the addition fits 16 bits.
  pub section_16-build-section_16 :
      (n : ℕ)
      → Appends f out
      → Appends g tail
      → ReadsAll r out t
      → length out + n < 2 ^ 16
      → (build (Builder.section_16_with_addition (pos n) f ⨾ g)
          >>= Reader.section_16_with_addition (pos n) r)
        ≡ done (t, tail)
  section_16-build-section_16 n F G R fits =
      build_then (Appends-section_16_with_addition n F fits) G
        (Reads-section_16_with_addition R n fits)

  -- A length prefix `P` of one, two or four bytes in front of what `f` appends, with `tail` behind
  -- it: `read_with_length` gives its callback exactly the bytes of `f` and leaves `tail`, whether
  -- the prefix counts itself or not, if the length fits the prefix.
  pub read_with_length-write_with_length :
      (P : ℕ)
      → IsWidth (bit_and P 7)
      → Appends f out
      → Appends g tail
      → ReadsAll r out t
      → length out + own_length P < 256 ^ bit_and P 7
      → (build (Builder.write_with_length P (pos 0) f ⨾ g) >>= Reader.read_with_length P r)
        ≡ done (t, tail)
  read_with_length-write_with_length P w F G R fits =
      build_then (Appends-write_with_length P 0 w F) G (
        let e : length out + own_length P + 0 ≡ length out + own_length P = omega arith in
        rw e (Reads-read_with_length R P w fits))
