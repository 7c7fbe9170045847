-- ===== src/Login/TransEmp.antt =====
-- `TransEmp::build` of mania/src/core/event/login/trans_emp.rs: a QR code is asked for, or asked
-- about.
pub mod Fields
pub mod Parse
pub mod Layout
pub mod Contents
pub mod Answer
use mania.Base.{ℕ, ◌+◌, List, [], ◌∷◌, Option, none, some, length, replicate}
use mania.Base.Fault.{Fault, done, panic, ◌>>=◌}
use mania.Base.Int.{pos, to_unsigned}
use mania.Context.{Context}
use mania.Login.Types.{TransEmp, TransEmpStatus, query_result, fetch_qr_code}
use mania.Login.Wrapper.{build_wtlogin_packet}
use mania.Packet.Builder.{
  Build, ◌⨾◌, unchanged, build, bytes, u8, u16, u32, u64, write_with_length, prefix_u8, prefix_u16,
}
use mania.Tlv.Login.{serialize_qrcode_tlv_set}
use mania.Tlv.Qrcode.{expect}
use mania.Tlv.Writer.{TlvProtos}

unfoldable pub new_fetch_qr_code : TransEmp
new_fetch_qr_code = record { status = fetch_qr_code; result = none }

unfoldable pub new_query_result : TransEmp
new_query_result = record { status = query_result; result = none }

-- `TLVS` and `TLVS_PASSWORD`
abbrev pub tlvs : List ℕ
tlvs = 0x016 ∷ 0x01B ∷ 0x01D ∷ 0x033 ∷ 0x035 ∷ 0x066 ∷ 0x0D1 ∷ []

abbrev pub tlvs_password : List ℕ
tlvs_password = 0x011 ∷ tlvs

unfoldable pub tlvs_for : Option (List ℕ) → List ℕ
tlvs_for none = tlvs
tlvs_for (some unusual_sign) = tlvs_password

-- The command with its own length in front.
unfoldable pub new_packet : ℕ → List ℕ → Build
new_packet qr_cmd payload =
    u8 2
    ⨾ u16 (43 + length payload + 1)
    ⨾ u16 qr_cmd
    ⨾ bytes (replicate 21 0)
    ⨾ u8 0x03
    ⨾ u16 0x00
    ⨾ u16 0x32
    ⨾ u32 0
    ⨾ u64 0
    ⨾ bytes payload
    ⨾ u8 3

-- The request around it: `timestamp` is the time in seconds.
unfoldable pub build_trans_emp_body : ℕ → Context → ℕ → List ℕ → Fault (List ℕ)
build_trans_emp_body timestamp ctx qr_cmd payload = do
  packet ← build (new_packet qr_cmd payload)
  request_body ← build (u32 timestamp ⨾ bytes packet)
  build (
      u8 0x00
      ⨾ u16 (length request_body)
      ⨾ u32 (to_unsigned 32 ctx.app_info.app_id)
      ⨾ u32 0x72
      ⨾ write_with_length prefix_u16 (pos 0) (bytes [])
      ⨾ write_with_length prefix_u8 (pos 0) (bytes [])
      ⨾ bytes request_body)

module _ (protos : TlvProtos) (timestamp : ℕ) (ctx : Context) where
  unfoldable pub build_data : TransEmpStatus → Fault (List ℕ)
  build_data query_result = do
    qrsign ← expect ctx.session.qr_sign
    build (
        u16 0
        ⨾ u32 (to_unsigned 32 ctx.app_info.app_id)
        ⨾ write_with_length prefix_u16 (pos 0) (bytes qrsign.sign)
        ⨾ u64 0
        ⨾ u8 0
        ⨾ write_with_length prefix_u16 (pos 0) (bytes [])
        ⨾ u16 0)
  build_data fetch_qr_code = build (
      u16 0
      ⨾ u32 (to_unsigned 32 ctx.app_info.app_id)
      ⨾ u64 0
      ⨾ bytes []
      ⨾ u8 0
      ⨾ write_with_length prefix_u16 (pos 0) (bytes [])
      ⨾ serialize_qrcode_tlv_set protos ctx (tlvs_for ctx.session.unusual_sign))

  unfoldable pub command_of : TransEmpStatus → ℕ
  command_of query_result = 0x12
  command_of fetch_qr_code = 0x31

  -- `build`, which takes the next sequence of the session.
  unfoldable pub build_trans_emp : (ℕ → List ℕ) → TransEmp → Fault (List ℕ × Context)
  build_trans_emp fill event = do
    payload ← build_data event.status
    body ← build_trans_emp_body timestamp ctx (command_of event.status) payload
    build_wtlogin_packet fill ctx 2066 body
