-- ===== src/Servlet.antt =====
-- The dispatch of myhttp/http/servlet.h and myhttp/http/servlet.cpp.
pub mod Dispatch
pub mod Matching
pub mod Unique
mod Tests
