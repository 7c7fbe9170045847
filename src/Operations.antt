-- ===== src/Operations.antt =====
-- mania/src/core/operation: the chains of requests that the client makes.
pub mod Qrcode
pub mod Deadline
pub mod Confirmed
mod Tests
