-- ===== src/Api/Lifespan.antt =====
-- tg_conductor/api/lifespan.py.
pub mod Supervisor
pub mod Modes
pub mod Shutdown
