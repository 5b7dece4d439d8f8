-- ===== src/Db.antt =====
-- tg_conductor/db: what of the database layer is the program's own.
pub mod Crypto
