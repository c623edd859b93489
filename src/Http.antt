-- ===== src/Http.antt =====
-- The messages of myhttp/http.
pub mod Codes
pub mod Methods
pub mod Message
pub mod Headers
pub mod Lines
pub mod Dump
pub mod Pool
pub mod Pooling
pub mod PoolCalls
pub mod Requests
pub mod RequestHeaders
pub mod Sending
mod Tests
mod PoolTests
