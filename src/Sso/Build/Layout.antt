-- ===== src/Sso/Build/Layout.antt =====
-- What `build_protocol12` and `build_protocol13` write.
use mania.Base.{ℕ, ◌+◌, ◌^◌, ◌<◌, ◌≡◌, List, [], ◌∷◌, ◌++◌, length, replicate, if◌then◌else◌}
use mania.Base.Bytes.{be16, be32}
use mania.Base.Fault.{done}
use mania.Base.Int.{to_unsigned}
use mania.Base.Text.{codes, decimal}
use mania.Context.{Context}
use mania.Context.Keys.{is_empty}
use mania.Packet.Builder.Appends.{
  Appends, ◌⊹◌, Appends-u8, Appends-u32, Appends-bytes, Appends-section, Appends-section_16,
  Appends-unchanged, Appends-string,
}
use mania.Packet.Reader.{section, bytes}
use mania.Packet.RoundTrip.{build_done}
use mania.Sign.{sign}
use mania.Sso.{SsoPacket}
use mania.Sso.Answer.{counted, section_alone}
use mania.Sso.Build.{
  SsoProtos, hex, uid_bytes, contents13, build_protocol13, header12, contents12, build_protocol12,
}
use mania.Tea.{tea_encrypt}

-- Bytes behind their 16-bit length, which counts itself.
abbrev pub counted_16 : List ℕ → List ℕ
counted_16 bs = be16 (length bs + 2) ++ bs

module _ (protos : SsoProtos) (p : SsoPacket) (ctx : Context) where
  abbrev pub bytes13 : List ℕ
  bytes13 =
      be32 13
      ++ ((0 ∷ [])
          ++ (be32 p.sequence
              ++ ((0 ∷ [])
                  ++ (counted (codes "0")
                      ++ (counted (
                            counted p.command
                            ++ (counted [] ++ counted (uid_bytes protos ctx.key_store.uid)))
                          ++ counted p.payload)))))

  Appends-contents13 : Appends (contents13 protos p ctx) bytes13
  unfolding contents13
  Appends-contents13 =
      Appends-u32 13
      ⊹ Appends-u8 0
      ⊹ Appends-u32 p.sequence
      ⊹ Appends-u8 0
      ⊹ Appends-section (Appends-string (codes "0"))
      ⊹ Appends-section (
          Appends-section (Appends-string p.command)
          ⊹ Appends-section Appends-unchanged
          ⊹ Appends-section (Appends-bytes (uid_bytes protos ctx.key_store.uid)))
      ⊹ Appends-section (Appends-bytes p.payload)

  -- A packet of protocol 13 is one section: its fields behind their length, from which a reader gets
  -- them back if the length fits 32 bits.
  pub build_protocol13-layout :
      length bytes13 + 4 < 2 ^ 32
      → (build_protocol13 protos p ctx ≡ done (counted bytes13))
        × (section bytes (counted bytes13) ≡ done (bytes13, []))
  unfolding build_protocol13
  build_protocol13-layout n =
      (build_done (Appends-section Appends-contents13), section_alone bytes13 n)

  abbrev pub header_bytes12 : List ℕ → List ℕ
  header_bytes12 trace =
      be32 p.sequence
      ++ (be32 (to_unsigned 32 ctx.app_info.sub_app_id)
          ++ (be32 2052
              ++ ((2 ∷ replicate 11 0)
                  ++ (counted ctx.key_store.session.tgt
                      ++ (counted p.command
                          ++ (counted []
                              ++ (counted (hex ctx.device.uuid)
                                  ++ (counted []
                                      ++ (counted_16 ctx.app_info.current_version
                                          ++ counted (
                                              protos.encode_device_sign trace ctx.key_store.uid
                                                (sign ctx p.command p.sequence p.payload)))))))))))

  abbrev pub body12 : List ℕ → List ℕ
  body12 trace = counted (header_bytes12 trace) ++ counted p.payload

  Appends-header12 :
      (trace : List ℕ)
      → length ctx.app_info.current_version + 2 < 2 ^ 16
      → Appends (header12 protos p ctx trace) (header_bytes12 trace)
  unfolding header12
  Appends-header12 trace n =
      Appends-u32 p.sequence
      ⊹ Appends-u32 (to_unsigned 32 ctx.app_info.sub_app_id)
      ⊹ Appends-u32 2052
      ⊹ Appends-bytes (2 ∷ replicate 11 0)
      ⊹ Appends-section (Appends-bytes ctx.key_store.session.tgt)
      ⊹ Appends-section (Appends-string p.command)
      ⊹ Appends-section Appends-unchanged
      ⊹ Appends-section (Appends-string (hex ctx.device.uuid))
      ⊹ Appends-section Appends-unchanged
      ⊹ Appends-section_16 (Appends-string ctx.app_info.current_version) n
      ⊹ Appends-section (
          Appends-bytes (
            protos.encode_device_sign trace ctx.key_store.uid
              (sign ctx p.command p.sequence p.payload)))

  abbrev pub bytes12 : List ℕ → List ℕ
  bytes12 encrypted =
      be32 12
      ++ (((if is_empty ctx.key_store.session.d2 then 2 else 1) ∷ [])
          ++ (counted ctx.key_store.session.d2
              ++ ((0 ∷ []) ++ (counted (decimal ctx.key_store.uin) ++ encrypted))))

  Appends-contents12 :
      (encrypted : List ℕ) → Appends (contents12 protos p ctx encrypted) (bytes12 encrypted)
  unfolding contents12
  Appends-contents12 encrypted =
      Appends-u32 12
      ⊹ Appends-u8 (if is_empty ctx.key_store.session.d2 then 2 else 1)
      ⊹ Appends-section (Appends-bytes ctx.key_store.session.d2)
      ⊹ Appends-u8 0
      ⊹ Appends-section (Appends-string (decimal ctx.key_store.uin))
      ⊹ Appends-bytes encrypted

  -- A packet of protocol 12 carries its header and its payload, each behind its length, encrypted
  -- with the key of the session, if the version fits 16 bits and the cipher accepts the key.
  pub build_protocol12-layout :
      (fill : ℕ → List ℕ) (trace encrypted : List ℕ)
      → length ctx.app_info.current_version + 2 < 2 ^ 16
      → tea_encrypt fill (body12 trace) ctx.key_store.session.d2_key ≡ done encrypted
      → build_protocol12 protos p ctx fill trace ≡ done (counted (bytes12 encrypted))
  unfolding build_protocol12
  build_protocol12-layout fill trace encrypted n e = rw (
    build_done
        (Appends-section (Appends-header12 trace n) ⊹ Appends-section (Appends-bytes p.payload)),
    e,
    build_done (Appends-section (Appends-contents12 encrypted)),
  )
