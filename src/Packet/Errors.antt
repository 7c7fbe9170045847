-- ===== src/Packet/Errors.antt =====
-- `PacketError` of mania/src/core/packet.rs. Errors of third-party code are kept without their text.
use mania.Base.{ℕ, List}
use mania.Base.Int.{ℤ}

pub data PacketError : Type 0 where
  unknown_sso_packet_type : ℕ → PacketError
  unknown_auth_flag : ℕ → PacketError
  invalid_uin : List ℕ → PacketError
  uin_mismatch : ℕ → ℕ → PacketError
  inflate_failed : PacketError
  sso_packet_parse_failed : PacketError
  -- the command, the sequence, the code and the extra text
  sso_packet_ret_failed : List ℕ → ℕ → ℤ → List ℕ → PacketError
  -- the command, the code and the wording
  oidb_packet_ret_failed : List ℕ → ℕ → List ℕ → PacketError
  other_error : List ℕ → PacketError
