-- ===== src/Login/TransEmp/Contents.antt =====
-- What an answer to `TransEmp` of mania/src/core/event/login/trans_emp.rs can hold, as its bytes and as
-- what it means.
use mania.Base.{
  ℕ, ◌^◌, ◌<◌, ◌≡◌, ◌≢◌, refl, sym, List, [], ◌∷◌, ◌++◌, length, Option, some, ne→==, arith, ◌+◌,
}
use mania.Base.Bytes.{be16}
use mania.Base.Fault.{done, ok, err}
use mania.Base.Text.{codes, decimal, hexadecimal}
use mania.Event.{Outcome, other_error}
use mania.Login.Downcast.{as_t017q, as_t018q, as_t019q, as_t01cq, as_t01eq, as_t0d1}
use mania.Login.TransEmp.Fields.{qr_code_fields, confirmed_fields}
use mania.Login.TransEmp.Parse.{
  parse_command, parse_qr_code, parse_query, parse_state, parse_confirmed,
}
use mania.Login.Types.{
  TransEmp, TransEmp31Res, TransEmp12Res, TransEmp12ConfirmedData, query_result, fetch_qr_code,
  confirmed, code_expired, waiting_for_scan, waiting_for_confirm, canceled, emp12, emp31,
}
use mania.Packet.Reader.{skip, bytes}
use mania.Packet.Reader.Reads.{
  Reads-u8, Reads-split_to, ReadsAll-bytes, Reads-section_16_with_addition,
}
use mania.Tlv.Set.{
  TlvSet, TlvDe, t017q, t018q, t019q, t01cq, t01eq, t0d1_resp, deserialize_qrcode, lookup, get,
}
use mania.Tlv.Writer.{TlvProtos}

-- A QR code, with its leading byte, its TLVs and the second number of the TLV 0x01c; a state of the
-- code, with the bytes behind it; or a command that is not known.
pub data Contents : Type 0 where
  qr_code : ℕ → List ℕ → ℕ → TransEmp31Res → Contents
  confirmed_with : List ℕ → List ℕ → TransEmp12ConfirmedData → Contents
  expired unscanned unconfirmed refused : List ℕ → Contents
  other_state : ℕ → List ℕ → Contents
  other_command : ℕ → List ℕ → Contents

abbrev pub command_in : Contents → ℕ
command_in (qr_code lead tlvs minutes r) = 0x31
command_in (confirmed_with skipped tlvs d) = 0x12
command_in (expired rest) = 0x12
command_in (unscanned rest) = 0x12
command_in (unconfirmed rest) = 0x12
command_in (refused rest) = 0x12
command_in (other_state state rest) = 0x12
command_in (other_command command rest) = command

abbrev pub bytes_in : Contents → List ℕ
bytes_in (qr_code lead tlvs minutes r) =
    (lead ∷ []) ++ ((be16 (length r.signature + 0) ++ r.signature) ++ tlvs)
bytes_in (confirmed_with skipped tlvs d) = (0 ∷ []) ++ (skipped ++ tlvs)
bytes_in (expired rest) = (17 ∷ []) ++ rest
bytes_in (unscanned rest) = (48 ∷ []) ++ rest
bytes_in (unconfirmed rest) = (53 ∷ []) ++ rest
bytes_in (refused rest) = (54 ∷ []) ++ rest
bytes_in (other_state state rest) = (state ∷ []) ++ rest
bytes_in (other_command command rest) = rest

abbrev pub of_state : TransEmp12Res → Outcome TransEmp
of_state state = done (ok (record { status = query_result; result = some (emp12 state) }))

abbrev pub meaning : Contents → Outcome TransEmp
meaning (qr_code lead tlvs minutes r) =
    done (ok (record { status = fetch_qr_code; result = some (emp31 r) }))
meaning (confirmed_with skipped tlvs d) = of_state (confirmed d)
meaning (expired rest) = of_state code_expired
meaning (unscanned rest) = of_state waiting_for_scan
meaning (unconfirmed rest) = of_state waiting_for_confirm
meaning (refused rest) = of_state canceled
meaning (other_state state rest) =
    done (err (other_error (codes "unknown trans_emp ret code: " ++ decimal state)))
meaning (other_command command rest) =
    done (err (other_error (codes "unsupported trans_emp command: 0x" ++ hexadecimal command)))

get_lem :
    {A : Type 0} (tag : ℕ) (downcast : TlvDe → Option A) (set : TlvSet) (tlv : TlvDe) (a : A)
    → lookup tag set ≡ some tlv
    → downcast tlv ≡ some a
    → get tag downcast set ≡ ok a
unfolding get
get_lem tag downcast set tlv a found same = rw (found, get) (rw (same) refl)

module _ (protos : TlvProtos) where
  -- The TLVs are those of the contents, and the fields have the sizes and values of their place.
  abbrev pub Fits : Contents → Type 0
  Fits (qr_code lead tlvs minutes r) =
      (length r.signature + 0 < 2 ^ 16)
      × (set : TlvSet) × (deserialize_qrcode protos tlvs ≡ done set)
      × (lookup 0x017 set ≡ some (t017q r.qr_code))
      × (lookup 0x01c set ≡ some (t01cq r.expiration minutes))
      × (lookup 0x0d1 set ≡ some (t0d1_resp (record { url = r.url; qr_sig = r.qr_sig })))
  Fits (confirmed_with skipped tlvs d) =
      (length skipped ≡ 12)
      × (set : TlvSet) × (deserialize_qrcode protos tlvs ≡ done set)
      × (lookup 0x01e set ≡ some (t01eq d.tgtgt_key))
      × (lookup 0x018 set ≡ some (t018q d.temp_password))
      × (lookup 0x019 set ≡ some (t019q d.no_pic_sig))
  Fits (expired rest) = Unit {0}
  Fits (unscanned rest) = Unit {0}
  Fits (unconfirmed rest) = Unit {0}
  Fits (refused rest) = Unit {0}
  Fits (other_state state rest) =
      (state ≢ 0) × (state ≢ 17) × (state ≢ 48) × (state ≢ 53) × (state ≢ 54)
  Fits (other_command command rest) = (command < 2 ^ 16) × (command ≢ 0x31) × (command ≢ 0x12)

  pub command_in-lt : (c : Contents) → Fits c → command_in c < 2 ^ 16
  command_in-lt (qr_code lead tlvs minutes r) h = omega arith
  command_in-lt (confirmed_with skipped tlvs d) h = omega arith
  command_in-lt (expired rest) h = omega arith
  command_in-lt (unscanned rest) h = omega arith
  command_in-lt (unconfirmed rest) h = omega arith
  command_in-lt (refused rest) h = omega arith
  command_in-lt (other_state state rest) h = omega arith
  command_in-lt (other_command command rest) h = h.0

  parse_qr_code-bytes :
      (lead : ℕ) (tlvs : List ℕ) (minutes : ℕ) (r : TransEmp31Res)
      → Fits (qr_code lead tlvs minutes r)
      → parse_qr_code protos (bytes_in (qr_code lead tlvs minutes r))
        ≡ meaning (qr_code lead tlvs minutes r)
  unfolding parse_qr_code qr_code_fields as_t017q as_t01cq as_t0d1 bytes
  parse_qr_code-bytes lead tlvs minutes r (fits, set, read, l17, l1c, ld1) =
      rw
        (
          (Reads-u8 lead).at ((be16 (length r.signature + 0) ++ r.signature) ++ tlvs),
          (Reads-section_16_with_addition (ReadsAll-bytes r.signature) 0 fits).at tlvs,
          read,
          get_lem 0x017 as_t017q set (t017q r.qr_code) r.qr_code l17 refl,
          get_lem 0x01c as_t01cq set (t01cq r.expiration minutes) r.expiration l1c refl,
          get_lem 0x0d1 as_t0d1 set (t0d1_resp (record { url = r.url; qr_sig = r.qr_sig }))
              (record { url = r.url; qr_sig = r.qr_sig }) ld1 refl,
        )
        refl

  parse_confirmed-bytes :
      (skipped tlvs : List ℕ) (d : TransEmp12ConfirmedData)
      → Fits (confirmed_with skipped tlvs d)
      → parse_confirmed protos (skipped ++ tlvs) ≡ done (ok (confirmed d))
  unfolding parse_confirmed confirmed_fields skip as_t01eq as_t018q as_t019q bytes
  parse_confirmed-bytes skipped tlvs d (twelve, set, read, l1e, l18, l19) =
      rw
        (
          (Reads-split_to 12 skipped (sym twelve)).at tlvs,
          read,
          get_lem 0x01e as_t01eq set (t01eq d.tgtgt_key) d.tgtgt_key l1e refl,
          get_lem 0x018 as_t018q set (t018q d.temp_password) d.temp_password l18 refl,
          get_lem 0x019 as_t019q set (t019q d.no_pic_sig) d.no_pic_sig l19 refl,
        )
        refl

  -- Each command and each state has its own reader or result.
  pub parse_command-bytes :
      (c : Contents) → Fits c → parse_command protos (command_in c) (bytes_in c) ≡ meaning c
  unfolding parse_command parse_query parse_state
  parse_command-bytes (qr_code lead tlvs minutes r) h = parse_qr_code-bytes lead tlvs minutes r h
  parse_command-bytes (confirmed_with skipped tlvs d) h =
      rw ((Reads-u8 0).at (skipped ++ tlvs), parse_confirmed-bytes skipped tlvs d h) refl
  parse_command-bytes (expired rest) h = rw ((Reads-u8 17).at rest) refl
  parse_command-bytes (unscanned rest) h = rw ((Reads-u8 48).at rest) refl
  parse_command-bytes (unconfirmed rest) h = rw ((Reads-u8 53).at rest) refl
  parse_command-bytes (refused rest) h = rw ((Reads-u8 54).at rest) refl
  parse_command-bytes (other_state state rest) (n0, n17, n48, n53, n54) =
      rw
        (
          (Reads-u8 state).at rest,
          ne→== state 0 n0,
          ne→== state 17 n17,
          ne→== state 48 n48,
          ne→== state 53 n53,
          ne→== state 54 n54,
        )
        refl
  parse_command-bytes (other_command command rest) (small, n31, n12) =
      rw (ne→== command 0x31 n31, ne→== command 0x12 n12) refl
