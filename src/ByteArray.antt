-- ===== src/ByteArray.antt =====
-- myhttp/bytearray.h and myhttp/bytearray.cpp: a growing byte store over a chain of blocks.
pub mod Store
pub mod Chain
pub mod Invariant
pub mod Growth
pub mod Write
pub mod Read
pub mod File
pub mod Strings
pub mod Zigzag
pub mod VarintRoundTrip
pub mod Varint
pub mod Wire
pub mod Fixed
pub mod Stream
pub mod Iovecs
mod Tests
