-- ===== src/Login/TransEmp/Fields.antt =====
-- The fields that `TransEmp::parse` reads off an answer.
use mania.Base.{ℕ, List}
use mania.Base.Int.{pos}
use mania.Packet.Reader.{
  Reader, ◌>>=◌, ◌>>◌, pure, u8, u16, u32, bytes, skip, section_16_with_addition,
}

-- The command and what follows the header of 54 bytes.
unfoldable pub command_fields : Reader (ℕ × List ℕ)
command_fields = do u32; u32; command ← u16; skip 40; u32; packet ← bytes; pure (command, packet)

-- The signature of a QR code and its TLVs.
unfoldable pub qr_code_fields : Reader (List ℕ × List ℕ)
qr_code_fields = do
  u8
  signature ← section_16_with_addition (pos 0) bytes
  payload ← bytes
  pure (signature, payload)

unfoldable pub confirmed_fields : Reader (List ℕ)
confirmed_fields = do skip 12; bytes
