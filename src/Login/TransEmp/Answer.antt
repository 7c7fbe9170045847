-- ===== src/Login/TransEmp/Answer.antt =====
-- What `TransEmp::parse` makes of an answer that a server encrypted.
use mania.Base.{ℕ, ◌^◌, ◌<◌, ◌≡◌, sym, List, [], ◌++◌, length}
use mania.Base.Bytes.{AreBytes, be16, be32}
use mania.Base.Fault.{done}
use mania.Context.{Context}
use mania.Login.TransEmp.Contents.{
  Contents, command_in, bytes_in, meaning, Fits, command_in-lt, parse_command-bytes,
}
use mania.Login.TransEmp.Fields.{command_fields}
use mania.Login.TransEmp.Parse.{parse_trans_emp}
use mania.Login.Wrapper.Answer.{Fields, answer, parse_wtlogin_packet-answer}
use mania.Packet.Reader.{skip, bytes}
use mania.Packet.Reader.Reads.{Reads-u32, Reads-u16, Reads-split_to}
use mania.Tea.{tea_encrypt}
use mania.Tea.RoundTrip.{IsFiller}
use mania.Tlv.Writer.{TlvProtos}

-- The header of 54 bytes with the command in it, and the packet.
abbrev pub command_answer : ℕ → ℕ → ℕ → List ℕ → ℕ → List ℕ → List ℕ
command_answer length_field unknown command skipped app_id packet =
    be32 length_field ++ (be32 unknown ++ (be16 command ++ (skipped ++ (be32 app_id ++ packet))))

command_fields-answer :
    (length_field unknown command : ℕ) (skipped : List ℕ) (app_id : ℕ) (packet : List ℕ)
    → length_field < 2 ^ 32
    → unknown < 2 ^ 32
    → command < 2 ^ 16
    → length skipped ≡ 40
    → app_id < 2 ^ 32
    → command_fields (command_answer length_field unknown command skipped app_id packet)
      ≡ done ((command, packet), [])
unfolding command_fields skip bytes
command_fields-answer length_field unknown command skipped app_id packet hl hu hc hs ha = rw (
  (Reads-u32 length_field hl).at
      (be32 unknown ++ (be16 command ++ (skipped ++ (be32 app_id ++ packet)))),
  (Reads-u32 unknown hu).at (be16 command ++ (skipped ++ (be32 app_id ++ packet))),
  (Reads-u16 command hc).at (skipped ++ (be32 app_id ++ packet)),
  (Reads-split_to 40 skipped (sym hs)).at (be32 app_id ++ packet),
  (Reads-u32 app_id ha).at packet,
)

module _ (protos : TlvProtos) where
  -- For an answer that the server encrypted with the agreed key of sixteen bytes, and whose fields fit
  -- their sizes, what it holds is what the event says: a QR code with its image, expiry, link
  -- and signatures, the keys of a confirmed code, each state of a code that is not confirmed, and an
  -- error that names the state or the command where it is not known; whatever the header of 54 bytes
  -- and the envelope hold otherwise. The TLVs are given as the set that is read off them.
  pub parse_trans_emp-answer :
      (ctx : Context) (h : Fields) (fill : ℕ → List ℕ) (cipher : List ℕ) (length_field unknown : ℕ)
      (skipped : List ℕ) (app_id : ℕ) (c : Contents)
      → IsFiller fill
      → length ctx.login_p256.shared_key ≡ 16
      → length_field < 2 ^ 32
      → unknown < 2 ^ 32
      → length skipped ≡ 40
      → app_id < 2 ^ 32
      → Fits protos c
      → AreBytes (command_answer length_field unknown (command_in c) skipped app_id (bytes_in c))
      → tea_encrypt fill
          (command_answer length_field unknown (command_in c) skipped app_id (bytes_in c))
          ctx.login_p256.shared_key
        ≡ done cipher
      → parse_trans_emp protos ctx (answer h cipher 3) ≡ meaning c
  unfolding parse_trans_emp
  parse_trans_emp-answer ctx h fill cipher length_field unknown skipped app_id c filler k hl hu hs
        ha fits hb e =
      rw
        (
          parse_wtlogin_packet-answer ctx h fill
              (command_answer length_field unknown (command_in c) skipped app_id (bytes_in c))
              cipher filler hb k e,
          command_fields-answer length_field unknown (command_in c) skipped app_id (bytes_in c) hl
              hu (command_in-lt protos c fits) hs ha,
        )
        (parse_command-bytes protos c fits)
