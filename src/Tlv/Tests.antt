-- ===== src/Tlv/Tests.antt =====
-- TLVs written and read, and the theorems at concrete sets.
use mania.Base.{ℕ, ◌≡◌, refl, arith, List, [], ◌∷◌, Option, some, ◌++◌}
use mania.Base.Bytes.{be16}
use mania.Base.Fault.{Fault, done, ◌>>=◌}
use mania.Base.Int.{to_unsigned}
use mania.Packet.Builder.{Build, build, bytes, u32, i32}
use mania.Packet.Builder.Appends.{Appends-bytes, Appends-u32}
use mania.Packet.Reader
use mania.Context.Example.{fresh, uuid}
use mania.Tlv.Qrcode.{new_qrcode_tlv}
use mania.Tlv.Writer.{TlvProtos}
use mania.Tlv.Login.{serialize_set}
use mania.Tlv.Set.{
  lookup, body_017q, body_018q, body_019q, body_01eq, TlvSet, t018q, t01cq, deserialize_set,
  deserialize_count, deserialize_one, dispatch, length_value, collect, insert, tag_of, qrcode_body,
}
use mania.Tlv.Set.Entries.{Entry, entries, read_entries, deserialize_set-entries}
use mania.Tlv.Set.Tags.{tag_of-lookup}
use mania.Tlv.RoundTrip.{Writes, tags, deserialize_set-serialize_set}

-- Protocol buffers that carry their field and nothing else.
abbrev protos : TlvProtos
protos = record {
  encode_d1 = λ name os kind. name ++ (os ++ kind);
  decode_d1_resp = λ bs. some (record { url = bs; qr_sig = [] });
  decode_543 = λ bs. some (some (some bs));
}

-- An expiry of 120 seconds, a tag nobody knows, and a temporary password.
abbrev answer : List Entry
answer = (0x01c, 0 ∷ 0 ∷ 0 ∷ 120 ∷ 0 ∷ 2 ∷ []) ∷ (0x099, 5 ∷ []) ∷ (0x018, 1 ∷ 2 ∷ []) ∷ []

abbrev answer_set : TlvSet
answer_set = (0x01c, t01cq 120 2) ∷ (0x018, t018q (1 ∷ 2 ∷ [])) ∷ []

answer_read : deserialize_set (qrcode_body protos) (be16 3 ++ entries answer) ≡ done answer_set
unfolding deserialize_set deserialize_count deserialize_one dispatch qrcode_body length_value
    collect insert tag_of Reader.u16 Reader.u32 Reader.get_uint Reader.split_to Reader.bytes
    Reader.read_packet Reader.section_16_with_addition to_unsigned mania.Base.Int.◌-ℤ◌ body_017q
    body_018q body_019q body_01eq
answer_read = refl

deserialize_set-entries_example :
    deserialize_set (qrcode_body protos) (be16 3 ++ (entries answer ++ []))
    ≡ read_entries (qrcode_body protos) answer []
deserialize_set-entries_example =
    deserialize_set-entries (qrcode_body protos) answer []
      ((omega arith, omega arith), ((omega arith, omega arith), ((omega arith, omega arith), _)))
      (omega arith)

tag_of-lookup_example : tag_of (t018q (1 ∷ 2 ∷ [])) ≡ 0x018
unfolding lookup
tag_of-lookup_example =
    tag_of-lookup (qrcode_body protos) (be16 3 ++ entries answer) answer_set 0x018
      (t018q (1 ∷ 2 ∷ [])) answer_read refl

-- What a query of the QR code asks of a fresh client.
abbrev query : List Entry
query = (0x033, uuid) ∷ (0x035, 0 ∷ 0 ∷ 0 ∷ 19 ∷ []) ∷ []

abbrev query_table : ℕ → Option (Fault Build)
query_table tag = new_qrcode_tlv protos tag fresh

query_uuid : Writes query_table (0x033, uuid)
unfolding new_qrcode_tlv
query_uuid = record {
  f = bytes uuid;
  known = refl;
  body = Appends-bytes uuid;
  fits = (omega arith, omega arith);
}

query_os : Writes query_table (0x035, 0 ∷ 0 ∷ 0 ∷ 19 ∷ [])
unfolding new_qrcode_tlv i32 to_unsigned
query_os = record {
  f = u32 19;
  known = refl;
  body = Appends-u32 19;
  fits = (omega arith, omega arith);
}

deserialize_set-serialize_set_example :
    (build (serialize_set query_table (0x033 ∷ 0x035 ∷ []))
      >>= deserialize_set (qrcode_body protos))
    ≡ read_entries (qrcode_body protos) query []
unfolding tags
deserialize_set-serialize_set_example =
    deserialize_set-serialize_set query_table (qrcode_body protos) query (query_uuid, (query_os, _))
      (omega arith)
