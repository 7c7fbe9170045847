-- ===== src/Sso.antt =====
-- `SsoPacket` of mania/src/core/packet.rs: the packets that the client and the server exchange.
pub mod Build
pub mod Fields
pub mod Parse
pub mod Uin
pub mod Answer
pub mod Service
pub mod Sequence
mod Tests
use mania.Base.{ℕ, List, Option, none, some, if◌then◌else◌, ◌==◌}

pub data PacketType : Type 0 where
  t12 t13 : PacketType

-- `try_from`
unfoldable pub packet_type : ℕ → Option PacketType
packet_type value = if value == 12 then some t12 else if value == 13 then some t13 else none

pub record SsoPacket : Type 0 where
  pub packet_type : PacketType
  pub command : List ℕ
  pub sequence : ℕ
  pub payload : List ℕ
