-- ===== src/Workflows.antt =====
-- tg_conductor/workflows: what a workflow is, which ones are accepted, how they are stored, and
-- which of an account's workflows make it subscribe to updates.
pub mod Schema
pub mod Repo
pub mod UpdateMode
