-- ===== src/Log.antt =====
-- The log of myhttp/log.h and myhttp/log.cpp.
pub mod Levels
pub mod Pattern
pub mod Printing
pub mod Rounds
pub mod Formatting
pub mod Appenders
pub mod Loggers
pub mod Defines
pub mod Ready
pub mod Fitting
pub mod Keeping
pub mod Delivery
pub mod Tables
pub mod Sound
pub mod History
pub mod Changes
pub mod Failing
pub mod Output
mod Tests
