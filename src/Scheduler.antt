-- ===== src/Scheduler.antt =====
-- tg_conductor/scheduler: the jobs table and what fills, claims, cancels and finishes its rows.
pub mod Models
pub mod Repo
pub mod CronTick
pub mod Expander
pub mod Control
pub mod Dispatcher
pub mod AccountWorker
