-- ===== src/Login/WtLogin/Fields.antt =====
-- The fields that `WtLogin::parse` reads off an answer.
use mania.Base.{ℕ, List}
use mania.Packet.Reader.{Reader, ◌>>=◌, ◌>>◌, pure, u8, bytes, skip}

-- The type of the answer and its TLVs.
unfoldable pub type_fields : Reader (ℕ × List ℕ)
type_fields = do skip 2; typ ← u8; rest ← bytes; pure (typ, rest)
