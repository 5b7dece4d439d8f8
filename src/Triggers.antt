-- ===== src/Triggers.antt =====
-- tg_conductor/triggers: when a workflow fires.
pub mod TimeWindow
pub mod MessageMatch
pub mod Startup
pub mod Duration
