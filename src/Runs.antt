-- ===== src/Runs.antt =====
-- tg_conductor/runs: runs, their events, the bus that fans events out, and the pruning of old ones.
pub mod Models
pub mod EventBus
pub mod Events
pub mod Cleanup
