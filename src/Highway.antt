-- ===== src/Highway.antt =====
-- mania/src/core/highway: the upload of large files.
pub mod Frame
pub mod Client
pub mod Upload
pub mod Covers
pub mod Stops
pub mod Sent
mod Tests
