-- ===== src/Sso/Parse.antt =====
-- `SsoPacket::parse`
use mania.Base.{
  ℕ, ◌+◌, List, ◌++◌, Option, none, some, if◌then◌else◌, ◌==◌, Bool, true, false, length, replicate,
}
use mania.Base.Attempt.{Attempt, ◌>>=◌, ◌>>◌, pure, fail, call}
use mania.Base.Bytes.{be32}
use mania.Base.Int.{ℤ, pos, negsuc}
use mania.Context.{Context}
use mania.Packet.Errors.{
  PacketError, unknown_sso_packet_type, unknown_auth_flag, invalid_uin, uin_mismatch,
  inflate_failed, sso_packet_ret_failed,
}
use mania.Packet.Reader
use mania.Sso.{PacketType, t12, t13, packet_type, SsoPacket}
use mania.Sso.Fields.{service_start, service_fields, SsoHeader, sso_fields}
use mania.Sso.Uin.{parse_u32}
use mania.Tea.{tea_decrypt}

unfoldable pub known_type : ℕ → Option PacketType → Attempt PacketError PacketType
known_type value none = fail (unknown_sso_packet_type value)
known_type value (some protocol) = pure protocol

unfoldable pub known_uin : List ℕ → Option ℕ → Attempt PacketError ℕ
known_uin text none = fail (invalid_uin text)
known_uin text (some uin) = pure uin

-- A packet of the other protocol may be for any account.
unfoldable pub same_uin : Context → PacketType → ℕ → Attempt PacketError (Unit {0})
same_uin ctx t12 uin =
    if uin == ctx.key_store.uin then pure tt else fail (uin_mismatch ctx.key_store.uin uin)
same_uin ctx t13 uin = pure tt

unfoldable pub authenticate : Context → ℕ → List ℕ → Attempt PacketError (List ℕ)
authenticate ctx auth_flag body =
    if auth_flag == 0
    then pure body
    else if auth_flag == 1
    then call (tea_decrypt body ctx.key_store.session.d2_key)
    else if auth_flag == 2
    then call (tea_decrypt body (replicate 16 0))
    else fail (unknown_auth_flag auth_flag)

-- What was inflated gets its own length, with the length field, in front.
unfoldable pub inflated : Option (List ℕ) → Attempt PacketError (List ℕ)
inflated none = fail inflate_failed
inflated (some buffer) = pure (be32 (length buffer + 4) ++ buffer)

unfoldable pub is_zero : ℤ → Bool
is_zero (pos n) = n == 0
is_zero (negsuc n) = false

unfoldable pub finish : SsoHeader → List ℕ → Attempt PacketError SsoPacket
finish header body =
    if is_zero header.ret_code
    then pure (record {
      packet_type = t12;
      command = header.command;
      sequence = header.sequence;
      payload = body;
    })
    else fail (sso_packet_ret_failed header.command header.sequence header.ret_code header.extra)

-- The zlib decoder is that of flate2: the bytes, or an error.
module _ (inflate : List ℕ → Option (List ℕ)) where
  unfoldable pub payload_of : Bool → List ℕ → Attempt PacketError (List ℕ)
  payload_of true reader = do
    (body, rest) ← call (Reader.section Reader.bytes reader)
    inflated (inflate body)
  payload_of false reader = pure reader

  -- The inner packet.
  unfoldable pub parse_body : List ℕ → Attempt PacketError SsoPacket
  parse_body body = do
    (header, reader) ← call (sso_fields body)
    payload ← payload_of header.is_compressed reader
    finish header payload

  unfoldable pub parse : Context → List ℕ → Attempt PacketError SsoPacket
  parse ctx packet = do
    (value, reader) ← call (service_start packet)
    protocol ← known_type value (packet_type value)
    ((auth_flag, text), body) ← call (service_fields reader)
    uin ← known_uin text (parse_u32 text)
    same_uin ctx protocol uin
    plain ← authenticate ctx auth_flag body
    parse_body plain
