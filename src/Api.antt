-- ===== src/Api.antt =====
-- tg_conductor/api: what of the process's wiring decides something.
pub mod Lifespan
