-- ===== src/Login/Wrapper/Layout.antt =====
-- What `build_wtlogin_packet` writes.
use mania.Base.{ℕ, ◌+◌, ◌%◌, ◌^◌, ◌≡◌, refl, List, [], ◌∷◌, ◌++◌, length, inr, inl}
use mania.Base.Bytes.{be16, be32}
use mania.Base.Fault.{done}
use mania.Context.{Context}
use mania.Context.Keys.{next_sequence}
use mania.Login.Wrapper.{wtlogin_contents, build_wtlogin_packet}
use mania.Packet.Builder.{build}
use mania.Packet.Builder.Appends.{
  Appends, ◌⊹◌, Appends-u8, Appends-u16, Appends-u32, Appends-bytes, Appends-write_with_length,
}
use mania.Tea.{tea_encrypt}

-- The bytes inside the length.
unfoldable pub contents : Context → ℕ → List ℕ → List ℕ
contents ctx cmd encrypted =
    be16 8001
    ++ (be16 cmd
        ++ (be16 ctx.session.sequence
            ++ (be32 ctx.key_store.uin
                ++ ((3 ∷ 135 ∷ [])
                    ++ (be32 0
                        ++ ((19 ∷ [])
                            ++ (be16 0
                                ++ (be16 ctx.app_info.app_client_version
                                    ++ (be32 0
                                        ++ ((2 ∷ 1 ∷ [])
                                            ++ (ctx.session.stub.random_key
                                                ++ (be16 0x0131
                                                    ++ (be16 1
                                                        ++ (be16 (length ctx.login_p256.public_key)
                                                            ++ (ctx.login_p256.public_key
                                                            ++ (encrypted
                                                            ++ (3 ∷ [])))))))))))))))))

Appends-contents :
    (ctx : Context) (cmd : ℕ) (encrypted : List ℕ)
    → Appends (wtlogin_contents ctx cmd ctx.session.sequence encrypted) (contents ctx cmd encrypted)
unfolding wtlogin_contents contents
Appends-contents ctx cmd encrypted =
    Appends-u16 8001
    ⊹ Appends-u16 cmd
    ⊹ Appends-u16 ctx.session.sequence
    ⊹ Appends-u32 ctx.key_store.uin
    ⊹ Appends-u8 3
    ⊹ Appends-u8 135
    ⊹ Appends-u32 0
    ⊹ Appends-u8 19
    ⊹ Appends-u16 0
    ⊹ Appends-u16 ctx.app_info.app_client_version
    ⊹ Appends-u32 0
    ⊹ Appends-u8 2
    ⊹ Appends-u8 1
    ⊹ Appends-bytes ctx.session.stub.random_key
    ⊹ Appends-u16 0x0131
    ⊹ Appends-u16 0x0001
    ⊹ Appends-u16 (length ctx.login_p256.public_key)
    ⊹ Appends-bytes ctx.login_p256.public_key
    ⊹ Appends-bytes encrypted
    ⊹ Appends-u8 3

-- The start byte, the length of the whole packet and the contents.
abbrev pub enveloped : List ℕ → List ℕ
enveloped inner = 2 ∷ (be16 (length inner + 2 + 1) ++ inner)

-- Once the body is encrypted, the packet is the start byte 2, its own length modulo 2^16 and the
-- fields with the cipher text in them, and the only change to the context is the next sequence.
pub build_wtlogin_packet-layout :
    (fill : ℕ → List ℕ) (ctx : Context) (cmd : ℕ) (body encrypted : List ℕ)
    → tea_encrypt fill body ctx.login_p256.shared_key ≡ done encrypted
    → build_wtlogin_packet fill ctx cmd body
      ≡ done (
        enveloped (contents ctx cmd encrypted),
        record ctx {
          session = record ctx.session { sequence = (ctx.session.sequence + 1) % 2 ^ 16 };
        },
      )
unfolding build_wtlogin_packet build next_sequence
build_wtlogin_packet-layout fill ctx cmd body encrypted e = rw (
  e,
  (Appends-u8 2
        ⊹ Appends-write_with_length 10 1 (inr (inl refl)) (Appends-contents ctx cmd encrypted)).at
      [],
)
