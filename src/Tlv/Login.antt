-- ===== src/Tlv/Login.antt =====
-- The TLVs of a login: the other files of mania/src/core/tlv that are written, and the sets of TLVs.
use mania.Base.{ℕ, List, [], ◌∷◌, Option, none, some, if◌then◌else◌, ◌==◌, length, replicate}
use mania.Base.Fault.{Fault, done, panic, ◌>>=◌}
use mania.Base.Int.{to_unsigned}
use mania.Base.Text.{codes}
use mania.Context.{Context}
use mania.Packet.Builder.{Build, ◌⨾◌, u8, u16, u32, bytes, unchanged, build}
use mania.Tea.{tea_encrypt}
use mania.Tlv.Writer.{TlvProtos, tlv, string_with_length, bytes_with_length}
use mania.Tlv.Qrcode.{expect, new_qrcode_tlv}

-- `serialize_tlv_set` and `serialize_qrcode_tlv_set`, which differ in the table of tags. A tag that
-- the table lacks is a panic.
unfoldable pub serialize_each : (ℕ → Option (Fault Build)) → List ℕ → Build
serialize_each table [] packet = done packet
serialize_each table (tag ∷ tags) packet = do
  tlv ← elim (table tag) [ none ↦ panic | some t ↦ t ]
  serialized ← build tlv
  packet' ← bytes serialized packet
  serialize_each table tags packet'

unfoldable pub serialize_set : (ℕ → Option (Fault Build)) → List ℕ → Build
serialize_set table tags = u16 (length tags) ⨾ serialize_each table tags

unfoldable pub t106 : Context → Fault Build
t106 ctx = do temp ← expect ctx.key_store.session.temp_password; done (tlv 0x106 (bytes temp))

unfoldable pub t116 : Context → Fault Build
t116 ctx = done (tlv 0x116 (u8 0 ⨾ u32 12058620 ⨾ u32 ctx.app_info.sub_sig_map ⨾ u8 0))

unfoldable pub t142 : Context → Fault Build
t142 ctx = done (tlv 0x142 (u16 0 ⨾ string_with_length ctx.app_info.package_name))

unfoldable pub t145 : Context → Fault Build
t145 ctx = done (tlv 0x145 (bytes ctx.device.uuid))

unfoldable pub t018 : Context → Fault Build
t018 ctx = done (
    tlv 0x18 (
      u16 0
      ⨾ u32 5
      ⨾ u32 0
      ⨾ u32 ctx.app_info.app_client_version
      ⨾ u32 ctx.key_store.uin
      ⨾ u16 0
      ⨾ u16 0))

unfoldable pub t141 : Context → Fault Build
t141 ctx =
    done (tlv 0x141 (u16 0 ⨾ string_with_length (codes "Unknown") ⨾ u16 0 ⨾ string_with_length []))

unfoldable pub t177 : Context → Fault Build
t177 ctx = done (tlv 0x177 (u8 1 ⨾ u32 0 ⨾ string_with_length ctx.app_info.wt_login_sdk))

unfoldable pub t191 : Context → Fault Build
t191 ctx = done (tlv 0x191 (u8 0))

unfoldable pub t100 : Context → Fault Build
t100 ctx =
    let info = ctx.app_info in
    done (
      tlv 0x100 (
        u16 0
        ⨾ u32 5
        ⨾ u32 (to_unsigned 32 info.app_id)
        ⨾ u32 (to_unsigned 32 info.sub_app_id)
        ⨾ u32 info.app_client_version
        ⨾ u32 info.main_sig_map))

unfoldable pub t107 : Context → Fault Build
t107 ctx = done (tlv 0x107 (u16 1 ⨾ u8 0x0D ⨾ u16 0 ⨾ u8 1))

unfoldable pub t318 : Context → Fault Build
t318 ctx = done (tlv 0x318 unchanged)

unfoldable pub t16a : Context → Fault Build
t16a ctx = do
  no_pic_sig ← expect ctx.key_store.session.no_pic_sig
  done (tlv 0x16A (bytes no_pic_sig))

unfoldable pub t166 : Context → Fault Build
t166 ctx = done (tlv 0x166 (u8 5))

unfoldable pub t521 : Context → Fault Build
t521 ctx = done (tlv 0x521 (u32 0x13 ⨾ string_with_length (codes "basicim")))

unfoldable pub t16e : Context → Fault Build
t16e ctx = done (tlv 0x16E (bytes ctx.device.device_name))

unfoldable pub t147 : Context → Fault Build
t147 ctx = done (
    tlv 0x147 (
      u32 (to_unsigned 32 ctx.app_info.app_id)
      ⨾ string_with_length ctx.app_info.pt_version
      ⨾ string_with_length ctx.app_info.package_name))

unfoldable pub t128 : Context → Fault Build
t128 ctx = done (
    tlv 0x128 (
      u16 0
      ⨾ u8 0
      ⨾ u8 1
      ⨾ u8 0
      ⨾ u32 0
      ⨾ string_with_length ctx.app_info.os
      ⨾ bytes_with_length ctx.device.uuid
      ⨾ string_with_length []))

unfoldable pub t124 : Context → Fault Build
t124 ctx = done (tlv 0x124 (bytes (replicate 12 0)))

-- `TLV_SER_MAP` without T144, whose own set names none but these.
unfoldable pub plain_tlv : ℕ → Context → Option (Fault Build)
unfolding t106 t116 t142 t145 t018 t141 t177 t191 t100 t107 t318 t16a t166 t521 t16e t147 t128 t124
plain_tlv tag ctx =
    if tag == 0x106
    then some (t106 ctx)
    else if tag == 0x116
    then some (t116 ctx)
    else if tag == 0x142
    then some (t142 ctx)
    else if tag == 0x145
    then some (t145 ctx)
    else if tag == 0x018
    then some (t018 ctx)
    else if tag == 0x141
    then some (t141 ctx)
    else if tag == 0x177
    then some (t177 ctx)
    else if tag == 0x191
    then some (t191 ctx)
    else if tag == 0x100
    then some (t100 ctx)
    else if tag == 0x107
    then some (t107 ctx)
    else if tag == 0x318
    then some (t318 ctx)
    else if tag == 0x16a
    then some (t16a ctx)
    else if tag == 0x166
    then some (t166 ctx)
    else if tag == 0x521
    then some (t521 ctx)
    else if tag == 0x16E
    then some (t16e ctx)
    else if tag == 0x147
    then some (t147 ctx)
    else if tag == 0x128
    then some (t128 ctx)
    else if tag == 0x124
    then some (t124 ctx)
    else none

-- What the random generator fills in for the cipher of T144.
module _ (fill : ℕ → List ℕ) where
  -- The inner set is written in `from_context`, and encrypted in `serialize`.
  unfoldable pub t144 : Context → Fault Build
  unfolding serialize_set
  t144 ctx = do
    tlvs ← build (serialize_set (λ tag. plain_tlv tag ctx) (0x16E ∷ 0x147 ∷ 0x128 ∷ 0x124 ∷ []))
    done (tlv 0x144 (λ p. tea_encrypt fill tlvs ctx.session.stub.tgtgt_key >>= λ c. bytes c p))

  unfoldable pub new_tlv : ℕ → Context → Option (Fault Build)
  new_tlv tag ctx = if tag == 0x144 then some (t144 ctx) else plain_tlv tag ctx

  unfoldable pub serialize_tlv_set : Context → List ℕ → Build
  serialize_tlv_set ctx tags = serialize_set (λ tag. new_tlv tag ctx) tags

unfoldable pub serialize_qrcode_tlv_set : TlvProtos → Context → List ℕ → Build
serialize_qrcode_tlv_set protos ctx tags = serialize_set (λ tag. new_qrcode_tlv protos tag ctx) tags
