-- ===== src/Streams.antt =====
-- The streams of myhttp/stream.cpp and myhttp/socket_stream.cpp.
pub mod Loops
pub mod Reading
pub mod Writing
pub mod FixSize
pub mod Socket
mod Tests
