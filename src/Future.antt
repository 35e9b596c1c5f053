-- ===== src/Future.antt =====
-- src/future: the status word of a future and the operations on it.
pub mod Kind
pub mod Status
pub mod Word
pub mod Check
pub mod Shared
pub mod Atomic
pub mod Downstream
pub mod Exchange
pub mod Waiters
pub mod Page
mod Tests
