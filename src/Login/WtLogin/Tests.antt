-- ===== src/Login/WtLogin/Tests.antt =====
-- A login that is answered without TLVs, and one that succeeds.
use mania.Base.{ℕ, ◌≡◌, refl, ◌∙◌, arith, List, [], ◌∷◌, ◌++◌, none, some, replicate}
use mania.Base.Fault.{done, ok, err}
use mania.Context.{Context}
use mania.Context.Example.{fresh}
use mania.Event.{tlv_error}
use mania.Login.Downcast.{as_t119, as_t10a, as_t143, as_t305, as_t106, as_t543, as_t11a}
use mania.Login.Step.{load, lift, store}
use mania.Login.Wrapper.{parse_wtlogin_packet}
use mania.Login.Wrapper.Answer.{Fields, answer, parse_wtlogin_packet-answer}
use mania.Login.WtLogin.{
  parse_accepted, parse_answer, parse_wtlogin, sixteen_bytes, store_tgtgt_key, store_tgt, store_d2,
  store_d2_key, store_uid, store_temp_password, store_session_date, store_info,
}
use mania.Login.WtLogin.Fields.{type_fields}
use mania.Login.WtLogin.Atomic.{parse_wtlogin_atomic}
use mania.Login.WtLogin.Stored.{AreFresh, parse_accepted_stored}
use mania.Tea.{tea_decrypt}
use mania.Tea.RoundTrip.{tea_decrypt-tea_encrypt}
use mania.Tea.Runs.{
  fill_220, fill_220-IsFiller, empty_set, empty_set_encrypted, empty_set_run, login_set,
  login_set_encrypted, login_set_run,
}
use mania.Tlv.Set.{
  TlvSet, t119, missing_tlv, deserialize, deserialize_set, deserialize_count, deserialize_one,
  dispatch, login_body, length_value, collect, insert, lookup, tag_of, get, body_106, body_10a,
  body_143, body_305, body_543, body_11a,
}
use mania.Tlv.Writer.{TlvProtos}
use mania.Packet.Reader
use mania.Base.Int.{to_unsigned}

-- Protocol buffers that carry their field and nothing else, and a digest of sorts.
abbrev protos : TlvProtos
protos = record {
  encode_d1 = λ name os kind. name ++ (os ++ kind);
  decode_d1_resp = λ bs. some (record { url = bs; qr_sig = [] });
  decode_543 = λ bs. some (some (some bs));
}

abbrev digest : List ℕ → List ℕ
digest bs = 0xD4 ∷ bs

abbrev fields : Fields
fields = record {
  length_field = 0;
  ver = 8001;
  cmd = 2064;
  seq = 7;
  uin = 0;
  flag = 0;
  retry_time = 0;
}

opened : parse_wtlogin_packet fresh (answer fields empty_set_encrypted 3) ≡ done (ok empty_set)
opened =
    parse_wtlogin_packet-answer fresh fields fill_220 empty_set empty_set_encrypted
      fill_220-IsFiller (omega arith) refl empty_set_run

empty_answer :
    parse_wtlogin protos digest 9 (answer fields empty_set_encrypted 3) fresh
    ≡ done (err (tlv_error (missing_tlv 0x119)), fresh)
unfolding parse_wtlogin parse_answer parse_accepted load lift type_fields deserialize
    deserialize_set deserialize_count get lookup Reader.u8 Reader.u16 Reader.get_uint
    Reader.split_to Reader.bytes Reader.skip
empty_answer = rw (opened)

parse_wtlogin_atomic_example : fresh ≡ fresh
parse_wtlogin_atomic_example =
    parse_wtlogin_atomic protos digest 9 (answer fields empty_set_encrypted 3) fresh fresh
      (tlv_error (missing_tlv 0x119)) empty_answer

inner_opened : tea_decrypt login_set_encrypted (replicate 16 0) ≡ done login_set
inner_opened = rw (login_set_run) at (
    tea_decrypt-tea_encrypt fill_220 login_set (replicate 16 0) fill_220-IsFiller (omega arith)
      refl)

abbrev original_tlvs : TlvSet
original_tlvs = (0x119, t119 login_set_encrypted) ∷ []

abbrev logged_in : Context
logged_in = record fresh {
  key_store = record fresh.key_store {
    uid = some (4 ∷ []);
    session = record fresh.key_store.session {
      tgt = 1 ∷ [];
      d2 = 2 ∷ [];
      d2_key = 0 ∷ 1 ∷ 2 ∷ 3 ∷ 4 ∷ 5 ∷ 6 ∷ 7 ∷ 8 ∷ 9 ∷ 10 ∷ 11 ∷ 12 ∷ 13 ∷ 14 ∷ 15 ∷ [];
      temp_password = some (3 ∷ []);
      session_date = 9;
    };
    info = record { age = 20; gender = 1; name = b'h' ∷ b'i' ∷ [] };
  };
  session = record fresh.session {
    stub = record fresh.session.stub {
      tgtgt_key = 0xD4 ∷ 0 ∷ 1 ∷ 2 ∷ 3 ∷ 4 ∷ 5 ∷ 6 ∷ 7 ∷ 8 ∷ 9 ∷ 10 ∷ 11 ∷ 12 ∷ 13 ∷ 14 ∷ 15 ∷ [];
    };
  };
}

accepted :
    parse_accepted protos digest 9 original_tlvs fresh
    ≡ done (ok (record { code = 0; msg = none }), logged_in)
unfolding parse_accepted load lift store get lookup as_t119 as_t10a as_t143 as_t305 as_t106 as_t543
    as_t11a store_tgtgt_key store_tgt store_d2 store_d2_key store_uid store_temp_password
    store_session_date store_info sixteen_bytes deserialize deserialize_set deserialize_count
    deserialize_one dispatch login_body length_value collect insert tag_of body_106 body_10a
    body_143 body_305 body_543 body_11a Reader.u8 Reader.u16 Reader.u32 Reader.get_uint
    Reader.split_to Reader.bytes Reader.string Reader.prefix Reader.read_with_length
    Reader.section_16_with_addition to_unsigned mania.Base.Int.◌-ℤ◌ mania.Base.Utf8.from_utf8_lossy
accepted = rw (inner_opened)

parse_accepted_stored_example : AreFresh digest 9 logged_in
parse_accepted_stored_example =
    parse_accepted_stored protos digest 9 original_tlvs fresh logged_in
      (record { code = 0; msg = none }) accepted
