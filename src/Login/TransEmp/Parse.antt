-- ===== src/Login/TransEmp/Parse.antt =====
-- `TransEmp::parse`: an answer becomes an event or an error.
use mania.Base.{ℕ, List, ◌++◌, some, if◌then◌else◌, ◌==◌}
use mania.Base.Fault.{Fault, done, panic, Result, ok, err}
use mania.Base.Fault
use mania.Base.Text.{codes, decimal, hexadecimal}
use mania.Context.{Context}
use mania.Event.{other_error, Outcome, ◌>>=◌, pure, fail, call, from_packet, found}
use mania.Login.Downcast.{as_t017q, as_t018q, as_t019q, as_t01cq, as_t01eq, as_t0d1}
use mania.Login.TransEmp.Fields.{command_fields, qr_code_fields, confirmed_fields}
use mania.Login.Types.{
  TransEmp, query_result, fetch_qr_code, TransEmp12Res, confirmed, code_expired, waiting_for_scan,
  waiting_for_confirm, canceled, emp12, emp31,
}
use mania.Login.Wrapper.{parse_wtlogin_packet}
use mania.Packet.Reader.{u8}
use mania.Tlv.Set.{deserialize_qrcode, get}
use mania.Tlv.Writer.{TlvProtos}

module _ (protos : TlvProtos) where
  -- TransEmp31: the QR code.
  unfoldable pub parse_qr_code : List ℕ → Outcome TransEmp
  parse_qr_code packet = do
    ((signature, payload), rest) ← call (qr_code_fields packet)
    tlvs ← call (deserialize_qrcode protos payload)
    qr_code ← found (get 0x017 as_t017q tlvs)
    expiration ← found (get 0x01c as_t01cq tlvs)
    t0d1 ← found (get 0x0d1 as_t0d1 tlvs)
    pure (record {
      status = fetch_qr_code;
      result = some (
          emp31 (record {
            qr_code = qr_code;
            expiration = expiration;
            url = t0d1.url;
            qr_sig = t0d1.qr_sig;
            signature = signature;
          }));
    })

  unfoldable pub parse_confirmed : List ℕ → Outcome TransEmp12Res
  parse_confirmed reader = do
    (payload, rest) ← call (confirmed_fields reader)
    tlvs ← call (deserialize_qrcode protos payload)
    tgtgt_key ← found (get 0x01e as_t01eq tlvs)
    temp_password ← found (get 0x018 as_t018q tlvs)
    no_pic_sig ← found (get 0x019 as_t019q tlvs)
    pure (
        confirmed (record {
          tgtgt_key = tgtgt_key;
          temp_password = temp_password;
          no_pic_sig = no_pic_sig;
        }))

  unfoldable pub parse_state : ℕ → List ℕ → Outcome TransEmp12Res
  parse_state state reader =
      if state == 0
      then parse_confirmed reader
      else if state == 17
      then pure code_expired
      else if state == 48
      then pure waiting_for_scan
      else if state == 53
      then pure waiting_for_confirm
      else if state == 54
      then pure canceled
      else fail (other_error (codes "unknown trans_emp ret code: " ++ decimal state))

  -- TransEmp12: what has become of the QR code.
  unfoldable pub parse_query : List ℕ → Outcome TransEmp
  parse_query packet = do
    (state, reader) ← call (u8 packet)
    result ← parse_state state reader
    pure (record { status = query_result; result = some (emp12 result) })

  unfoldable pub parse_command : ℕ → List ℕ → Outcome TransEmp
  parse_command command packet =
      if command == 0x31
      then parse_qr_code packet
      else if command == 0x12
      then parse_query packet
      else fail (other_error (codes "unsupported trans_emp command: 0x" ++ hexadecimal command))

  unfoldable pub parse_trans_emp : Context → List ℕ → Outcome TransEmp
  parse_trans_emp ctx packet = do
    body ← Fault.◌>>=◌ (parse_wtlogin_packet ctx packet) λ r. done (from_packet r)
    ((command, inner), rest) ← call (command_fields body)
    parse_command command inner
