-- ===== src/Examples.antt =====
-- Concrete Runs on which the theorems are applied.
mod Histories
mod Attempts
mod Retries
mod Validations
mod Effects
mod Episodes
mod Gates
mod Advances
mod Inventories
mod Summaries
mod Reports
mod Merges
