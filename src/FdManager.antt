-- ===== src/FdManager.antt =====
-- The descriptor contexts of myhttp/fd_manager.h and myhttp/fd_manager.cpp.
pub mod Contexts
pub mod Lookup
mod Tests
