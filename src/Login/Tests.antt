-- ===== src/Login/Tests.antt =====
-- The events of a login at concrete packets.
use mania.Base.{
  ℕ, ◌+◌, ◌≡◌, ◌≢◌, refl, arith, List, [], ◌∷◌, ◌++◌, length, replicate, none, some, if◌then◌else◌,
  ◌==◌, ltb, leb,
}
use mania.Base.Bytes.{be16, be32}
use mania.Base.Int.{to_unsigned}
use mania.Packet.Reader
use mania.Tlv.Set.Entries.{entries}
use mania.Tlv.Set.{
  lookup, body_017q, body_018q, body_019q, body_01eq, t017q, t018q, t019q, t01cq, t01eq, t0d1_resp,
  deserialize_set, deserialize_qrcode, deserialize_count, deserialize_one, dispatch, length_value,
  collect, insert, tag_of, qrcode_body,
}
use mania.Base.Fault.{done, ok, err}
use mania.Base.Text.{codes}
use mania.Context.Example.{fresh}
use mania.Login.Wrapper.{build_wtlogin_packet, parse_wtlogin_packet}
use mania.Login.Wrapper.Layout.{build_wtlogin_packet-layout, contents, enveloped}
use mania.Login.Wrapper.Answer.{
  Fields, answer, parse_wtlogin_packet-answer, parse_wtlogin_packet_refused,
}
use mania.Login.TransEmp.{build_trans_emp_body}
use mania.Login.TransEmp.Parse.{parse_trans_emp}
use mania.Login.TransEmp.Contents.{unscanned, meaning, Fits, confirmed_with, qr_code}
use mania.Login.TransEmp.Layout.{build_trans_emp_body-layout, command_bytes, request_bytes}
use mania.Login.TransEmp.Answer.{parse_trans_emp-answer}
use mania.Packet.Errors.{other_error}
use mania.Tea.Runs.{
  fill_220, fill_220-IsFiller, empty_set, empty_set_encrypted, empty_set_run, waiting_encrypted,
  waiting_run,
}
use mania.Tlv.Writer.{TlvProtos}

-- Protocol buffers that carry their field and nothing else.
abbrev protos : TlvProtos
protos = record {
  encode_d1 = λ name os kind. name ++ (os ++ kind);
  decode_d1_resp = λ bs. some (record { url = bs; qr_sig = [] });
  decode_543 = λ bs. some (some (some bs));
}

abbrev fields : Fields
fields = record {
  length_field = 0;
  ver = 8001;
  cmd = 2064;
  seq = 7;
  uin = 0;
  flag = 0;
  retry_time = 0;
}

build_wtlogin_packet-layout_example :
    build_wtlogin_packet fill_220 fresh 2064 empty_set
    ≡ done (
      enveloped (contents fresh 2064 empty_set_encrypted),
      record fresh { session = record fresh.session { sequence = 1 } },
    )
build_wtlogin_packet-layout_example =
    build_wtlogin_packet-layout fill_220 fresh 2064 empty_set empty_set_encrypted empty_set_run

parse_wtlogin_packet-answer_example :
    parse_wtlogin_packet fresh (answer fields empty_set_encrypted 3) ≡ done (ok empty_set)
parse_wtlogin_packet-answer_example =
    parse_wtlogin_packet-answer fresh fields fill_220 empty_set empty_set_encrypted
      fill_220-IsFiller (omega arith) refl empty_set_run

parse_wtlogin_packet_refused_example :
    (parse_wtlogin_packet fresh (5 ∷ 6 ∷ [])
      ≡ done (err (other_error (codes "invalid packet header when parse_wtlogin_packet"))))
    × (parse_wtlogin_packet fresh (answer fields empty_set_encrypted 4)
        ≡ done (err (other_error (codes "invalid packet end when parse_wtlogin_packet"))))
parse_wtlogin_packet_refused_example =
    parse_wtlogin_packet_refused fresh fields empty_set_encrypted 5 4 (6 ∷ []) (omega arith)
      (omega arith)

build_trans_emp_body-layout_example :
    (declared : ℕ) × ((length (command_bytes declared 0x12 (1 ∷ 2 ∷ [])) ≡ declared)
      × (build_trans_emp_body 1700000000 fresh 0x12 (1 ∷ 2 ∷ [])
          ≡ done (
              request_bytes 1600001615
                (be32 1700000000 ++ command_bytes declared 0x12 (1 ∷ 2 ∷ [])))))
unfolding mania.Base.Int.to_unsigned
build_trans_emp_body-layout_example = build_trans_emp_body-layout 1700000000 fresh 0x12 (1 ∷ 2 ∷ [])

parse_trans_emp-answer_example :
    parse_trans_emp protos fresh (answer fields waiting_encrypted 3) ≡ meaning (unscanned [])
parse_trans_emp-answer_example =
    parse_trans_emp-answer protos fresh fields fill_220 waiting_encrypted 0 0 (replicate 40 0) 0
      (unscanned []) fill_220-IsFiller refl (omega arith) (omega arith) refl (omega arith) tt
      (omega arith) waiting_run

-- The TLVs of a confirmed code, and those of a QR code.
abbrev confirmed_tlvs : List ℕ
confirmed_tlvs = be16 3 ++ entries ((0x018, 2 ∷ []) ∷ (0x019, 3 ∷ []) ∷ (0x01e, 1 ∷ []) ∷ [])

abbrev qr_code_tlvs : List ℕ
qr_code_tlvs =
    be16 3
    ++ entries ((0x017, 9 ∷ []) ∷ (0x01c, 0 ∷ 0 ∷ 0 ∷ 120 ∷ 0 ∷ 2 ∷ []) ∷ (0x0d1, 8 ∷ []) ∷ [])

confirmed-Fits : Fits protos (
    confirmed_with
      (replicate 12 0)
      confirmed_tlvs
      (record { tgtgt_key = 1 ∷ []; temp_password = 2 ∷ []; no_pic_sig = 3 ∷ [] }))
unfolding deserialize_qrcode deserialize_set deserialize_count deserialize_one dispatch qrcode_body
    length_value collect insert lookup tag_of Reader.u16 Reader.u32 Reader.get_uint Reader.split_to
    Reader.bytes Reader.read_packet Reader.section_16_with_addition to_unsigned mania.Base.Int.◌-ℤ◌
    body_017q body_018q body_019q body_01eq
confirmed-Fits = (
  refl,
  (0x018, t018q (2 ∷ [])) ∷ (0x019, t019q (3 ∷ [])) ∷ (0x01e, t01eq (1 ∷ [])) ∷ [],
  refl,
  refl,
  refl,
  refl,
)

qr_code-Fits : Fits protos (
    qr_code 0 qr_code_tlvs 2 (record {
      qr_code = 9 ∷ [];
      expiration = 120;
      url = 8 ∷ [];
      qr_sig = [];
      signature = replicate 24 5;
    }))
unfolding deserialize_qrcode deserialize_set deserialize_count deserialize_one dispatch qrcode_body
    length_value collect insert lookup tag_of Reader.u16 Reader.u32 Reader.get_uint Reader.split_to
    Reader.bytes Reader.read_packet Reader.section_16_with_addition to_unsigned mania.Base.Int.◌-ℤ◌
    body_017q body_018q body_019q body_01eq
qr_code-Fits = (
  omega arith,
  (0x017, t017q (9 ∷ []))
      ∷ (0x01c, t01cq 120 2)
      ∷ (0x0d1, t0d1_resp (record { url = 8 ∷ []; qr_sig = [] }))
      ∷ [],
  refl,
  refl,
  refl,
  refl,
)
