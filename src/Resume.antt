-- ===== src/Resume.antt =====
-- Resuming a Run, from src/afk/start.py: what its projection is ready for, and what `resume_run`
-- does next.
pub mod Ready
pub mod Retry
pub mod Repair
pub mod Validation
pub mod Dispatch
