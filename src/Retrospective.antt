-- ===== src/Retrospective.antt =====
-- The summary of a Run's retrospectives, in src/afk/retrospective_outcome.py and
-- src/afk/retrospective_status.py.
pub mod Outcome
pub mod Status
pub mod Inventory
pub mod Summary
pub mod Pointer
pub mod Result
pub mod Cached
