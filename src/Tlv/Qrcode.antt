-- ===== src/Tlv/Qrcode.antt =====
-- The TLVs of a QR code request: mania/src/core/tlv/t*q.rs, as written.
use mania.Base.{ℕ, [], ◌∷◌, Option, none, some, if◌then◌else◌, ◌==◌}
use mania.Base.Fault.{Fault, done, panic}
use mania.Base.Int.{to_unsigned}
use mania.Context.{Context}
use mania.Packet.Builder.{Build, ◌⨾◌, u8, u16, u32, i32, bytes}
use mania.Tlv.Writer.{TlvProtos, tlv, string_with_length}

-- `expect` on an option.
abbrev pub expect {ℓ} : {A : Type ℓ} → Option A → Fault A
expect none = panic
expect (some a) = done a

unfoldable pub t011q : Context → Fault Build
t011q ctx = elim (expect ctx.session.unusual_sign) [
  | done unusual_sign ↦ done (tlv 0x011 (bytes unusual_sign))
  | panic ↦ panic
]

unfoldable pub t016q : Context → Fault Build
t016q ctx =
    let info = ctx.app_info in
    done (
      tlv 0x016 (
        u32 0
        ⨾ u32 (to_unsigned 32 info.app_id)
        ⨾ u32 (to_unsigned 32 info.sub_app_id)
        ⨾ bytes ctx.device.uuid
        ⨾ string_with_length info.package_name
        ⨾ string_with_length info.pt_version
        ⨾ string_with_length info.package_name))

unfoldable pub t01bq : Context → Fault Build
t01bq ctx = done (tlv 0x01b (u32 0 ⨾ u32 0 ⨾ u32 3 ⨾ u32 4 ⨾ u32 72 ⨾ u32 2 ⨾ u32 2 ⨾ u16 0))

unfoldable pub t01dq : Context → Fault Build
t01dq ctx = done (tlv 0x01d (u8 1 ⨾ u32 (to_unsigned 32 ctx.app_info.misc_bitmap) ⨾ u32 0 ⨾ u8 0))

unfoldable pub t033q : Context → Fault Build
t033q ctx = done (tlv 0x033 (bytes ctx.device.uuid))

unfoldable pub t035q : Context → Fault Build
t035q ctx = done (tlv 0x035 (i32 ctx.app_info.pt_os_version))

unfoldable pub t066q : Context → Fault Build
t066q ctx = done (tlv 0x066 (i32 ctx.app_info.pt_os_version))

module _ (protos : TlvProtos) where
  unfoldable pub t0d1q : Context → Fault Build
  t0d1q ctx = done (
      tlv 0x0d1
        (bytes (protos.encode_d1 ctx.device.device_name ctx.app_info.os (0x30 ∷ 0x01 ∷ []))))

  -- `TLV_QR_SER_MAP`, with `new_qrcode_tlv`.
  unfoldable pub new_qrcode_tlv : ℕ → Context → Option (Fault Build)
  unfolding t011q t016q t01bq t01dq t033q t035q t066q t0d1q
  new_qrcode_tlv tag ctx =
      if tag == 0x011
      then some (t011q ctx)
      else if tag == 0x016
      then some (t016q ctx)
      else if tag == 0x01b
      then some (t01bq ctx)
      else if tag == 0x01d
      then some (t01dq ctx)
      else if tag == 0x033
      then some (t033q ctx)
      else if tag == 0x035
      then some (t035q ctx)
      else if tag == 0x066
      then some (t066q ctx)
      else if tag == 0x0d1
      then some (t0d1q ctx)
      else none
