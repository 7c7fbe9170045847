-- ===== src/Event.antt =====
-- mania/src/core/event.rs: the errors of an event, and code that returns one or panics.
pub use mania.Base.Attempt.{◌>>=◌, pure, fail, call}
use mania.Base.Attempt.{Attempt}
use mania.Base.{ℕ, List}
use mania.Base.Fault.{done, Result, ok, err}
use mania.Base.Int.{ℤ}
use mania.Packet.Errors.{PacketError}
use mania.Tlv.Set.{TlvError, missing_tlv}

pub data EventError : Type 0 where
  unsupported_event : List ℕ → EventError
  tlv_error : TlvError → EventError
  proto_parse_error : EventError
  packet_parse_error : PacketError → EventError
  other_error : List ℕ → EventError
  internal_warning : List ℕ → EventError
  oidb_packet_internal_error : ℤ → List ℕ → EventError

-- A function that returns `Result<A, EventError>` and may panic.
abbrev pub Outcome {ℓ} : Type ℓ → Type ℓ
Outcome A = Attempt EventError A

-- `?` on a `PacketError`.
abbrev pub from_packet {ℓ} : {A : Type ℓ} → Result PacketError A → Result EventError A
from_packet (ok a) = ok a
from_packet (err e) = err (packet_parse_error e)

-- `.map_err(TlvError::MissingTlv)?`
abbrev pub found {ℓ} : {A : Type ℓ} → Result ℕ A → Outcome A
found (ok a) = done (ok a)
found (err tag) = done (err (tlv_error (missing_tlv tag)))
