-- ===== src/Runtime.antt =====
-- src/qas/runtime.py: one tick of the supervisor.
pub mod Answers
pub mod Budgets
pub mod Evidence
pub mod Recovery
pub mod Artifacts
pub mod Tick
pub mod Loop
