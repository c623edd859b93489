-- ===== src/Env.antt =====
-- The environment of myhttp/env.h and myhttp/env.cpp.
pub mod State
pub mod Arguments
mod Tests
