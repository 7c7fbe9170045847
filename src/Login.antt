-- ===== src/Login.antt =====
-- mania/src/core/event/login: the packets of a login, in the envelope that all of them share.
pub mod Wrapper
pub mod Step
pub mod TransEmp
pub mod WtLogin
pub mod Types
mod Tests
pub mod Downcast
use mania.Base.{ℕ}
