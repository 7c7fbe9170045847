-- ===== src/Sso/Answer.antt =====
-- What `SsoPacket::parse` makes of the packets that a server writes.
use mania.Base.{
  ℕ, ◌+◌, ◌^◌, ◌<◌, ◌≡◌, refl, List, [], ◌++◌, length, arith, not, ◌==◌, Bool, true, false, inr,
  some, Option, if◌then◌else◌, append-nil,
}
use mania.Base.Bytes.{be32}
use mania.Base.Fault.{done, ok, err}
use mania.Base.Int.{to_signed}
use mania.Base.Utf8.{is_utf8}
use mania.Base.Attempt.{Attempt}
use mania.Packet.Errors.{PacketError, sso_packet_ret_failed}
use mania.Packet.Builder.{prefix_u32}
use mania.Packet.Reader.{i32, bytes, section}
use mania.Packet.Reader.Reads.{
  ReadsAll-bytes, ReadsAll-string, Reads-u32, Reads-section, Reads-read_with_length,
}
use mania.Sso.{t12, SsoPacket}
use mania.Sso.Fields.{SsoHeader, sso_fields}
use mania.Sso.Parse.{is_zero, finish, parse_body, payload_of, inflated}

-- Bytes behind their length, which counts itself.
abbrev pub counted : List ℕ → List ℕ
counted bs = be32 (length bs + 4) ++ bs

pub record SsoAnswer : Type 0 where
  pub length_field : ℕ
  pub sequence : ℕ
  pub ret_code : ℕ
  pub extra : List ℕ
  pub command : List ℕ
  pub unknown : List ℕ
  pub flag : ℕ
  pub dummy : List ℕ

-- The numbers and lengths fit their fields, and the texts are texts.
pub record FitsAnswer (a : SsoAnswer) : Type 0 where
  pub length_field : a.length_field < 2 ^ 32
  pub sequence : a.sequence < 2 ^ 32
  pub ret_code : a.ret_code < 2 ^ 32
  pub extra : length a.extra + 4 < 2 ^ 32
  pub command : length a.command + 4 < 2 ^ 32
  pub unknown : length a.unknown + 4 < 2 ^ 32
  pub flag : a.flag < 2 ^ 32
  pub dummy : length a.dummy + 0 < 2 ^ 32
  pub extra_text : is_utf8 a.extra ≡ true
  pub command_text : is_utf8 a.command ≡ true

abbrev pub header_with : SsoAnswer → Bool → SsoHeader
header_with a compressed = record {
  sequence = a.sequence;
  ret_code = to_signed 32 a.ret_code;
  extra = a.extra;
  command = a.command;
  is_compressed = compressed;
}

abbrev pub header_of : SsoAnswer → SsoHeader
header_of a = header_with a (not (a.flag == 0))

abbrev pub sso_bytes : SsoAnswer → List ℕ → List ℕ
sso_bytes a rest =
    be32 a.length_field
    ++ (be32 a.sequence
        ++ (be32 a.ret_code
            ++ (counted a.extra
                ++ (counted a.command
                    ++ (counted a.unknown
                        ++ (be32 a.flag ++ ((be32 (length a.dummy + 0) ++ a.dummy) ++ rest)))))))

sso_fields-answer :
    (a : SsoAnswer) (rest : List ℕ)
    → FitsAnswer a
    → sso_fields (sso_bytes a rest) ≡ done (header_of a, rest)
unfolding sso_fields i32
sso_fields-answer a rest h =
    let dummy = (be32 (length a.dummy + 0) ++ a.dummy) ++ rest in
    let unknown = counted a.unknown ++ (be32 a.flag ++ dummy) in
    let command = counted a.command ++ unknown in
    let extra = counted a.extra ++ command in
    rw (
      (Reads-u32 a.length_field h.length_field).at (be32 a.sequence ++ (be32 a.ret_code ++ extra)),
      (Reads-u32 a.sequence h.sequence).at (be32 a.ret_code ++ extra),
      (Reads-u32 a.ret_code h.ret_code).at extra,
      (Reads-section (ReadsAll-string a.extra h.extra_text) h.extra).at command,
      (Reads-section (ReadsAll-string a.command h.command_text) h.command).at unknown,
      (Reads-section (ReadsAll-bytes a.unknown) h.unknown).at (be32 a.flag ++ dummy),
      (Reads-u32 a.flag h.flag).at dummy,
      (Reads-read_with_length (ReadsAll-bytes a.dummy) prefix_u32 (inr (inr refl)) h.dummy).at rest,
    )

-- What the server says: a packet if its code is 0, and its error otherwise.
abbrev pub outcome : SsoAnswer → List ℕ → Attempt PacketError SsoPacket
outcome a payload =
    if a.ret_code == 0
    then done (
        ok (record {
          packet_type = t12;
          command = a.command;
          sequence = a.sequence;
          payload = payload;
        }))
    else done (err (sso_packet_ret_failed a.command a.sequence (to_signed 32 a.ret_code) a.extra))

is_zero-to_signed : (n : ℕ) → n < 2 ^ 32 → is_zero (to_signed 32 n) ≡ (n == 0)
unfolding is_zero to_signed
is_zero-to_signed n h = ground arith

finish-outcome :
    (a : SsoAnswer) (compressed : Bool) (payload : List ℕ)
    → FitsAnswer a
    → finish (header_with a compressed) payload ≡ outcome a payload
unfolding finish
finish-outcome a compressed payload h = rw (is_zero-to_signed a.ret_code h.ret_code)

pub parse_body-plain :
    (inflate : List ℕ → Option (List ℕ)) (a : SsoAnswer) (payload : List ℕ)
    → FitsAnswer a
    → (a.flag == 0) ≡ true
    → parse_body inflate (sso_bytes a payload) ≡ outcome a payload
unfolding parse_body payload_of
parse_body-plain inflate a payload h plain =
    rw (sso_fields-answer a payload h, plain, finish-outcome a false payload h)

pub section_alone :
    (bs : List ℕ) → length bs + 4 < 2 ^ 32 → section bytes (counted bs) ≡ done (bs, [])
section_alone bs n = rw (append-nil) at ((Reads-section (ReadsAll-bytes bs) n).at [])

pub parse_body-compressed :
    (inflate : List ℕ → Option (List ℕ)) (a : SsoAnswer) (zipped payload : List ℕ)
    → FitsAnswer a
    → (a.flag == 0) ≡ false
    → length zipped + 4 < 2 ^ 32
    → inflate zipped ≡ some payload
    → parse_body inflate (sso_bytes a (counted zipped)) ≡ outcome a (counted payload)
unfolding parse_body payload_of inflated
parse_body-compressed inflate a zipped payload h compressed n e = rw (
  sso_fields-answer a (counted zipped) h,
  compressed,
  section_alone zipped n,
  e,
  finish-outcome a true (counted payload) h,
)
