-- ===== src/Address.antt =====
-- The addresses of myhttp/address.h and myhttp/address.cpp.
pub mod Masks
pub mod V4
pub mod V6
pub mod Unix
pub mod Order
pub mod Lookup
pub mod Interfaces
pub mod PrefixLengths
mod Tests
