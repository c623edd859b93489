-- ===== src/Scheduler.antt =====
-- The fibers of myhttp/fiber.cpp and the scheduler of myhttp/scheduler.cpp.
pub mod Fiber
pub mod Queue
pub mod Run
pub mod Picking
pub mod Counting
pub mod Steps
pub mod Stopping
mod Tests
