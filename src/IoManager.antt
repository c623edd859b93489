-- ===== src/IoManager.antt =====
-- The event table of myhttp/iomanager.h and myhttp/iomanager.cpp.
pub mod Table
pub mod Ops
pub mod Context
pub mod Invariant
pub mod Resize
pub mod Adding
pub mod Removing
pub mod Triggering
pub mod Handling
pub mod Calls
mod Tests
