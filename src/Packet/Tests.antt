-- ===== src/Packet/Tests.antt =====
-- Packets written and read, and the theorems at concrete packets.
use mania.Base.{ℕ, ◌≡◌, refl, arith, List, [], ◌∷◌, inl, inr}
use mania.Base.Fault.{done, ◌>>=◌}
use mania.Base.Int.{ℤ, pos, negsuc}
use mania.Packet.Builder
use mania.Packet.Builder.{Build, ◌⨾◌, build, prefix_u16, prefix_with}
use mania.Packet.Builder.Appends.{Appends-bytes, Appends-u8}
use mania.Packet.Reader
use mania.Packet.Reader.Reads.{ReadsAll-bytes}
use mania.Packet.RoundTrip.{section-build-section, read_with_length-write_with_length}

abbrev abc : List ℕ
abc = b'a' ∷ b'b' ∷ b'c' ∷ []

written :
    build (Builder.section (Builder.string abc) ⨾ Builder.u8 7)
    ≡ done (0 ∷ 0 ∷ 0 ∷ 7 ∷ b'a' ∷ b'b' ∷ b'c' ∷ 7 ∷ [])
unfolding build Builder.section Builder.section_with_addition Builder.string Builder.bytes
    Builder.u8 Builder.sub_usize Builder.overwrite mania.Base.Int.◌+ℤ◌ mania.Base.Int.◌-ℤ◌
    mania.Base.Int.to_unsigned
written = refl

section-build-section_example :
    (build (Builder.section (Builder.bytes abc) ⨾ Builder.u8 7) >>= Reader.section Reader.bytes)
    ≡ done (abc, 7 ∷ [])
section-build-section_example =
    section-build-section (Appends-bytes abc) (Appends-u8 7) (ReadsAll-bytes abc) (omega arith)

read_with_length-write_with_length_example :
    (build (Builder.write_with_length 10 (pos 0) (Builder.bytes abc) ⨾ Builder.u8 7)
      >>= Reader.read_with_length 10 Reader.bytes)
    ≡ done (abc, 7 ∷ [])
read_with_length-write_with_length_example =
    read_with_length-write_with_length 10 (inr (inl refl)) (Appends-bytes abc) (Appends-u8 7)
      (ReadsAll-bytes abc) (omega arith)
