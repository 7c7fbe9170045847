-- ===== src/Tlv/Writer.antt =====
-- The builder calls that mania/src/core/tlv.rs adds, and the messages that prost generates.
-- A TLV object that is written is its `serialize`; `from_context` may panic on a missing field.
use mania.Base.{ℕ, ◌+◌, ◌^◌, ◌<◌, List, ◌++◌, length, Option}
use mania.Base.Bytes.{be16}
use mania.Base.Int.{pos}
use mania.Packet.Builder.{Build, ◌⨾◌, u16, section_16_with_addition, bytes}
use mania.Packet.Builder.Appends.{
  Appends, Appends-⨾, Appends-u16, Appends-bytes, Appends-section_16_with_addition,
}

-- The answer to a QR code request.
pub record QrCodeD1Resp : Type 0 where
  pub url : List ℕ
  pub qr_sig : List ℕ

-- The encoders and decoders that the build generates from mania/src/core/protos/tlv. A message
-- `Tlv543` is read as far as `layer1.layer2.uid`.
pub record TlvProtos : Type 0 where
  pub encode_d1 : List ℕ → List ℕ → List ℕ → List ℕ
  pub decode_d1_resp : List ℕ → Option QrCodeD1Resp
  pub decode_543 : List ℕ → Option (Option (Option (List ℕ)))

unfoldable pub tlv : ℕ → Build → Build
tlv tag f = u16 tag ⨾ section_16_with_addition (pos 0) f

unfoldable pub bytes_with_length : List ℕ → Build
bytes_with_length bs = section_16_with_addition (pos 0) (bytes bs)

unfoldable pub string_with_length : List ℕ → Build
string_with_length s = bytes_with_length s

-- The bytes of a TLV.
abbrev pub entry : ℕ → List ℕ → List ℕ
entry tag body = be16 tag ++ (be16 (length body + 0) ++ body)

pub Appends-tlv :
    (tag : ℕ) {f : Build} {body : List ℕ}
    → Appends f body
    → length body + 0 < 2 ^ 16
    → Appends (tlv tag f) (entry tag body)
unfolding tlv
Appends-tlv tag F fits = Appends-⨾ (Appends-u16 tag) (Appends-section_16_with_addition 0 F fits)

pub Appends-string_with_length :
    (s : List ℕ) → length s + 0 < 2 ^ 16 → Appends (string_with_length s) (be16 (length s + 0) ++ s)
unfolding string_with_length bytes_with_length
Appends-string_with_length s fits = Appends-section_16_with_addition 0 (Appends-bytes s) fits
