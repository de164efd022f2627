-- ===== src/Runtime/Tick.antt =====
-- `tick` of src/qas/runtime.py.
pub mod Steps
pub mod Phases
pub mod Review
pub mod Handler
pub mod Run
pub mod Success
pub mod Verified
pub mod Delays
pub mod Released
pub mod Settled
