-- ===== src/Hook.antt =====
-- The hooked calls of myhttp/hook.cpp.
pub mod Io
pub mod Flags
mod Tests
