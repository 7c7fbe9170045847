-- ===== src/Oidb.antt =====
-- mania/src/core/packet.rs: OidbPacket, the envelope of most requests and answers.
use mania.Base.{
  ℕ, List, [], ◌++◌, Option, some, none, Bool, true, false, if◌then◌else◌, ◌==◌, not, ◌≡◌, refl,
}
use mania.Base.Fault.{Result, ok, err}
use mania.Base.Int.{ℤ, pos, negsuc}
use mania.Base.Text.{codes, decimal, hexadecimal}
use mania.Packet.Errors.{PacketError, oidb_packet_ret_failed, sso_packet_parse_failed}

-- OidbSvcTrpcTcpBase of core/protos/service/oidb/oidb_base.proto; of `lafter`, whether it is there.
pub record OidbBase : Type 0 where
  pub command : ℕ
  pub sub_command : ℕ
  pub error_code : ℕ
  pub body : List ℕ
  pub error_msg : List ℕ
  pub lafter : Bool
  pub reserved : ℤ

pub record OidbPacket : Type 0 where
  pub commend : ℕ
  pub sub_commend : ℕ
  pub body : List ℕ
  pub is_lafter : Bool
  pub is_uid : Bool

-- `i32::from(bool)` and `!= 0`.
abbrev pub from_bool : Bool → ℤ
from_bool false = pos 0
from_bool true = pos 1

abbrev pub nonzero : ℤ → Bool
nonzero (pos n) = not (n == 0)
nonzero (negsuc n) = true

unfoldable pub base_of : OidbPacket → OidbBase
base_of packet = record {
  command = packet.commend;
  sub_command = packet.sub_commend;
  error_code = 0;
  body = packet.body;
  error_msg = [];
  lafter = packet.is_lafter;
  reserved = from_bool packet.is_uid;
}

-- `format!("0x{:x}_{}")`
unfoldable pub command_text : ℕ → ℕ → List ℕ
unfolding decimal hexadecimal
command_text command sub_command =
    codes "0x" ++ (hexadecimal command ++ (codes "_" ++ decimal sub_command))

unfoldable pub check_base : OidbBase → Result PacketError OidbPacket
unfolding command_text
check_base base =
    if base.error_code == 0
    then ok (record {
      commend = base.command;
      sub_commend = base.sub_command;
      body = base.body;
      is_lafter = base.lafter;
      is_uid = nonzero base.reserved;
    })
    else err (
        oidb_packet_ret_failed (command_text base.command base.sub_command) base.error_code
          base.error_msg)

abbrev pub or_decode_error :
    {A B : Type 0} → (A → Result PacketError B) → Option A → Result PacketError B
or_decode_error f none = err sso_packet_parse_failed
or_decode_error f (some a) = f a

-- The codec that prost generates.
module _ (encode_base : OidbBase → List ℕ) (decode_base : List ℕ → Option OidbBase) where
  unfoldable pub to_binary : OidbPacket → List ℕ
  unfolding base_of
  to_binary packet = encode_base (base_of packet)

  unfoldable pub parse_oidb : List ℕ → Result PacketError OidbPacket
  unfolding check_base
  parse_oidb packet = or_decode_error check_base (decode_base packet)

  abbrev pub into_body :
      {T : Type 0} → (List ℕ → Option T) → Result PacketError OidbPacket → Result PacketError T
  into_body decode (err e) = err e
  into_body decode (ok packet) = or_decode_error (λ t. ok t) (decode packet.body)

  unfoldable pub parse_into : {T : Type 0} → (List ℕ → Option T) → List ℕ → Result PacketError T
  unfolding parse_oidb
  parse_into decode packet = into_body decode (parse_oidb packet)

  -- What is written is read again, where the codec reads what it has written.
  pub parse_oidb-to_binary :
      (packet : OidbPacket)
      → decode_base (encode_base (base_of packet)) ≡ some (base_of packet)
      → parse_oidb (to_binary packet) ≡ ok packet
  unfolding parse_oidb to_binary check_base base_of
  parse_oidb-to_binary packet e = rw (e) (flag packet.is_uid)
    where
      flag :
          (b : Bool)
          → ◌≡◌ {A = Result PacketError OidbPacket}
              (ok (record packet { is_uid = nonzero (from_bool b) }))
              (ok (record packet { is_uid = b }))
      flag true = refl
      flag false = refl
