-- ===== src/Highway/Frame.antt =====
-- mania/src/core/highway/hw_frame_codec.rs: a frame is 0x28, the two lengths, head, body and 0x29.
-- The source buffer of `decode` is threaded through: what a call takes off it is gone.
pub mod Laws
use mania.Base.{
  ℕ, ◌+◌, Option, some, none, List, [], ◌∷◌, ◌++◌, if◌then◌else◌, ltb, ◌==◌, ◌&&◌, length,
}
use mania.Base.Bytes.{be32}
use mania.Base.Fault.{Result, ok, err, done}
use mania.Packet.Reader.{Reader, ◌>>=◌, pure, u8, u32, split_to}

pub record HighwayFrame : Type 0 where
  pub head : List ℕ
  pub body : List ℕ

-- The errors of mania/src/core/highway.rs that the modelled code returns.
pub data HighwayError : Type 0 where
  invalid_frame : HighwayError
  upload_error : ℕ → HighwayError
  other_error : HighwayError

unfoldable pub encode : HighwayFrame → List ℕ → List ℕ
encode item dst =
    dst
    ++ (0x28
        ∷ (be32 (length item.head)
            ++ (be32 (length item.body) ++ (item.head ++ (item.body ++ (0x29 ∷ []))))))

abbrev pub Decoded : Type 0
Decoded = Result HighwayError (Option HighwayFrame)

-- The frame behind the two lengths, when all of it has arrived.
unfoldable pub read_frame : ℕ → ℕ → ℕ → Reader Decoded
read_frame start head_length body_length = do
  head ← split_to head_length
  body ← split_to body_length
  end ← u8
  if start == 0x28 && end == 0x29
      then pure (ok (some (record { head = head; body = body })))
      else pure (err invalid_frame)

-- `Ok(None)` asks for more data.
unfoldable pub stage_2 : ℕ → ℕ → ℕ → Reader Decoded
stage_2 start head_length body_length src =
    if ltb (length src) (head_length + body_length + 1)
    then done (ok none, src)
    else read_frame start head_length body_length src

unfoldable pub header : Reader Decoded
header = do start ← u8; head_length ← u32; body_length ← u32; stage_2 start head_length body_length

unfoldable pub decode : Reader Decoded
decode src = if ltb (length src) 10 then done (ok none, src) else header src
