-- ===== src/Accounts.antt =====
-- tg_conductor/accounts: the table of accounts.
pub mod Repo
pub mod Manager
