-- ===== src/Login/Wrapper.antt =====
-- `build_wtlogin_packet` and `parse_wtlogin_packet` of mania/src/core/event/login/trans_emp.rs.
pub mod Layout
pub mod Answer
use mania.Base.{ℕ, List, [], ◌∷◌, if◌then◌else◌, ◌==◌, ◌-◌, leb, length, take, drop, bit_or}
use mania.Base.Fault.{Fault, done, panic, Result, ok, err}
use mania.Base.Fault
use mania.Base.Int.{pos}
use mania.Base.Text.{codes}
use mania.Context.{Context}
use mania.Context.Keys.{next_sequence}
use mania.Packet.Builder
use mania.Packet.Builder.{Build, ◌⨾◌, build, write_with_length, prefix_u16, prefix_with}
use mania.Packet.Errors.{PacketError, other_error}
use mania.Packet.Reader.{Reader, ◌>>=◌, ◌>>◌, pure, u8, u16, u32, bytes}
use mania.Tea.{tea_encrypt, tea_decrypt}

-- What stands inside the length: the sequence is taken and the body encrypted before.
unfoldable pub wtlogin_contents : Context → ℕ → ℕ → List ℕ → Build
wtlogin_contents ctx cmd sequence encrypted =
    Builder.u16 8001
    ⨾ Builder.u16 cmd
    ⨾ Builder.u16 sequence
    ⨾ Builder.u32 ctx.key_store.uin
    ⨾ Builder.u8 3
    ⨾ Builder.u8 135
    ⨾ Builder.u32 0
    ⨾ Builder.u8 19
    ⨾ Builder.u16 0
    ⨾ Builder.u16 ctx.app_info.app_client_version
    ⨾ Builder.u32 0
    ⨾ Builder.u8 2
    ⨾ Builder.u8 1
    ⨾ Builder.bytes ctx.session.stub.random_key
    ⨾ Builder.u16 0x0131
    ⨾ Builder.u16 0x0001
    ⨾ Builder.u16 (length ctx.login_p256.public_key)
    ⨾ Builder.bytes ctx.login_p256.public_key
    ⨾ Builder.bytes encrypted
    ⨾ Builder.u8 3

-- The packet, and the context with the next sequence. `fill` stands for the random generator.
unfoldable pub build_wtlogin_packet : (ℕ → List ℕ) → Context → ℕ → List ℕ → Fault (List ℕ × Context)
build_wtlogin_packet fill ctx cmd body =
    let (sequence, session) = next_sequence ctx.session in
    Fault.◌>>=◌ (tea_encrypt fill body ctx.login_p256.shared_key) λ encrypted.
      Fault.◌>>=◌
        (build (
          Builder.u8 2
          ⨾ write_with_length (bit_or prefix_u16 prefix_with) (pos 1)
              (wtlogin_contents ctx cmd sequence encrypted)))
        λ packet. done (packet, record ctx { session = session })

-- The last byte is cut off: it must be 3, and the rest is the cipher text.
unfoldable pub decrypt_body : Context → List ℕ → List ℕ → Fault (Result PacketError (List ℕ))
decrypt_body ctx encrypted [] = panic
decrypt_body ctx encrypted (tail ∷ rest) =
    if tail == 3
    then Fault.◌>>=◌ (tea_decrypt encrypted ctx.login_p256.shared_key) (λ text. done (ok text))
    else done (err (other_error (codes "invalid packet end when parse_wtlogin_packet")))

-- `encrypted.len() - 1` underflows when nothing is left.
unfoldable pub split_tail : Context → List ℕ → Fault (Result PacketError (List ℕ))
split_tail ctx encrypted =
    if leb 1 (length encrypted)
    then decrypt_body ctx (take (length encrypted - 1) encrypted)
        (drop (length encrypted - 1) encrypted)
    else panic

unfoldable pub parse_fields : Reader (List ℕ)
parse_fields = do u16; u16; u16; u16; u32; u8; u16; bytes

unfoldable pub parse_wtlogin_packet : Context → List ℕ → Fault (Result PacketError (List ℕ))
parse_wtlogin_packet ctx packet = Fault.◌>>=◌ (u8 packet) λ (header, rest).
    if header == 2
    then Fault.◌>>=◌ (parse_fields rest) (λ (encrypted, left). split_tail ctx encrypted)
    else done (err (other_error (codes "invalid packet header when parse_wtlogin_packet")))
