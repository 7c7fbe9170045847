-- ===== src/Sso/Fields.antt =====
-- The fields that `SsoPacket::parse` reads.
use mania.Base.{ℕ, List, Bool, not, ◌==◌}
use mania.Base.Int.{ℤ}
use mania.Packet.Builder.{prefix_u32}
use mania.Packet.Reader.{
  Reader, ◌>>=◌, ◌>>◌, pure, u8, u32, i32, bytes, string, section, read_with_length,
}

-- The length, which is not looked at, and the protocol.
unfoldable pub service_start : Reader ℕ
service_start = do u32; u32

-- How the rest is encrypted, and for which account.
unfoldable pub service_fields : Reader (ℕ × List ℕ)
service_fields = do auth_flag ← u8; u8; uin ← section string; pure (auth_flag, uin)

pub record SsoHeader : Type 0 where
  pub sequence : ℕ
  pub ret_code : ℤ
  pub extra : List ℕ
  pub command : List ℕ
  pub is_compressed : Bool

unfoldable pub sso_fields : Reader SsoHeader
sso_fields = do
  u32
  sequence ← u32
  ret_code ← i32
  extra ← section string
  command ← section string
  section bytes
  compressed ← u32
  read_with_length prefix_u32 bytes
  pure (record {
    sequence = sequence;
    ret_code = ret_code;
    extra = extra;
    command = command;
    is_compressed = not (compressed == 0);
  })
