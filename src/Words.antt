-- ===== src/Words.antt =====
-- Machine words: their bits and the operations of src/bits.h.
pub mod Digits
pub mod Bit
pub mod Ops
pub mod Count
pub mod Laws
pub mod Rounding
pub mod Carry
mod Tests
