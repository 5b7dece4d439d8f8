-- ===== src/Actions.antt =====
-- tg_conductor/actions: what a run does, step by step.
pub mod Extras
pub mod World
pub mod Steps
pub mod Executor
