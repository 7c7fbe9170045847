-- ===== src/Business.antt =====
-- mania/src/core/business.rs and the dispatch of mania/src/core/event.rs.
pub mod Pending
pub mod Table
pub mod Reach
pub mod Dispatch
pub mod Refines
mod Tests
