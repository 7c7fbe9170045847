-- ===== src/Sso/Build.antt =====
-- `SsoPacket::build` of mania/src/core/packet.rs.
pub mod Trace
pub mod Layout
mod Tests
use mania.Base.{ℕ, List, [], ◌∷◌, ◌++◌, Option, none, some, if◌then◌else◌, replicate, ◌/◌, ◌%◌}
use mania.Base.Fault.{Fault, done, panic, ◌>>=◌}
use mania.Base.Int.{to_unsigned}
use mania.Base.Text.{codes, decimal, digit}
use mania.Context.{Context, SignResult}
use mania.Context.Keys.{is_empty}
use mania.Packet.Builder.{Build, ◌⨾◌, unchanged, build, bytes, string, u8, u32, section, section_16}
use mania.Sign.{sign}
use mania.Sso.{PacketType, t12, t13, SsoPacket}
use mania.Tea.{tea_encrypt}

-- The messages that prost encodes: `NtDeviceSign` from its trace, account and signature, and
-- `NtPacketUid` from its account.
pub record SsoProtos : Type 0 where
  pub encode_device_sign : List ℕ → Option (List ℕ) → Option SignResult → List ℕ
  pub encode_packet_uid : List ℕ → List ℕ

-- `hex`: two lower-case digits for each byte.
unfoldable pub hex : List ℕ → List ℕ
hex [] = []
hex (b ∷ bs) = digit (b / 16) ∷ digit (b % 16) ∷ hex bs

module _ (protos : SsoProtos) where
  unfoldable pub uid_bytes : Option (List ℕ) → List ℕ
  uid_bytes none = []
  uid_bytes (some uid) = protos.encode_packet_uid uid

  module _ (p : SsoPacket) (ctx : Context) where
    unfoldable pub contents13 : Build
    contents13 =
        u32 13
        ⨾ u8 0
        ⨾ u32 p.sequence
        ⨾ u8 0
        ⨾ section (string (codes "0"))
        ⨾ section (
            section (string p.command)
            ⨾ section unchanged
            ⨾ section (bytes (uid_bytes ctx.key_store.uid)))
        ⨾ section (bytes p.payload)

    unfoldable pub build_protocol13 : Fault (List ℕ)
    build_protocol13 = build (section contents13)

    -- `trace` is what `random_trace` returned.
    unfoldable pub header12 : List ℕ → Build
    header12 trace =
        u32 p.sequence
        ⨾ u32 (to_unsigned 32 ctx.app_info.sub_app_id)
        ⨾ u32 2052
        ⨾ bytes (2 ∷ replicate 11 0)
        ⨾ section (bytes ctx.key_store.session.tgt)
        ⨾ section (string p.command)
        ⨾ section unchanged
        ⨾ section (string (hex ctx.device.uuid))
        ⨾ section unchanged
        ⨾ section_16 (string ctx.app_info.current_version)
        ⨾ section (
            bytes (
              protos.encode_device_sign trace ctx.key_store.uid
                (sign ctx p.command p.sequence p.payload)))

    unfoldable pub contents12 : List ℕ → Build
    contents12 encrypted =
        u32 12
        ⨾ u8 (if is_empty ctx.key_store.session.d2 then 2 else 1)
        ⨾ section (bytes ctx.key_store.session.d2)
        ⨾ u8 0
        ⨾ section (string (decimal ctx.key_store.uin))
        ⨾ bytes encrypted

    unfoldable pub build_protocol12 : (ℕ → List ℕ) → List ℕ → Fault (List ℕ)
    build_protocol12 fill trace = do
      body ← build (section (header12 trace) ⨾ section (bytes p.payload))
      encrypted ← tea_encrypt fill body ctx.key_store.session.d2_key
      build (section (contents12 encrypted))

    unfoldable pub build_as : PacketType → (ℕ → List ℕ) → List ℕ → Fault (List ℕ)
    build_as t12 fill trace = build_protocol12 fill trace
    build_as t13 fill trace = build_protocol13

    unfoldable pub build_packet : (ℕ → List ℕ) → List ℕ → Fault (List ℕ)
    build_packet fill trace = build_as p.packet_type fill trace
