-- ===== src/Process.antt =====
-- src/qas/process.py: the supervision of an agent's process. `Log` models its output file and the
-- backups, `Run` the loop over its messages.
pub mod Events
pub mod Log
pub mod Run
