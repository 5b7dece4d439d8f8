-- ===== src/ConfigLoader.antt =====
-- tg_conductor/config_loader: the workflows of the files, and the table of workflows.
pub mod Parser
pub mod Sync
pub mod Reload
pub mod Flight
