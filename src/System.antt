-- ===== src/System.antt =====
-- mania/src/core/event/system: events that ask for lists.
pub mod Friends
pub mod Grouped
pub mod Members
mod Tests
