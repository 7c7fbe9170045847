-- ===== src/Tlv.antt =====
-- mania/src/core/tlv.rs: tag, length and value, written from a context and read into a set.
pub mod Writer
pub mod Qrcode
pub mod Login
pub mod Set
pub mod RoundTrip
mod Tests
