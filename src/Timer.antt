-- ===== src/Timer.antt =====
-- The timers of myhttp/timer.h and myhttp/timer.cpp.
pub mod Order
pub mod Manager
pub mod Sorted
pub mod Bound
pub mod Invariant
pub mod Reschedule
pub mod Expiring
pub mod Expired
pub mod Poll
pub mod Calls
pub mod Wakeup
mod Tests
