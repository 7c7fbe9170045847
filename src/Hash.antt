-- ===== src/Hash.antt =====
-- mania/src/core/crypto: the hash of a large file, of which parts are sampled.
pub mod TriSha1
pub mod Windows
pub mod Sampled
mod Tests
