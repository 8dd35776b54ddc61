-- ===== src/Gate.antt =====
-- The Gate of src/afk/candidate_gate.py: the reviews of a Candidate, what follows from them, and
-- the brief for a repair, with what src/afk/start.py does then. What Python's `str.lower` and `str` give is a parameter.
pub mod Text
pub mod Review
pub mod Brief
pub mod Cycle
pub mod Advance
pub mod Stored
