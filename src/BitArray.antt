-- ===== src/BitArray.antt =====
-- src/bit_array.h: the operations, and what each does to the array seen as a sequence of bits.
pub mod Defs
pub mod Bits
pub mod Access
pub mod Count
pub mod Alleq
pub mod RangeSet
pub mod Find
pub mod Search
pub mod Next
mod Tests
