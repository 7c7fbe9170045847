-- ===== src/Packet.antt =====
-- mania/src/core/packet.rs: the binary packets, their writer and their reader.
pub mod Builder
pub mod Reader
pub mod RoundTrip
pub mod Integers
pub mod Errors
mod Tests
use mania.Base.{ℕ}
