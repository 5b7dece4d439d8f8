-- ===== src/TgCore.antt =====
-- tg_conductor/tg_core: the protocol that the Telegram adapters implement.
pub mod Protocol
pub mod Throttle
pub mod Login
