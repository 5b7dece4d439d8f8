-- ===== src/Ai.antt =====
-- tg_conductor/ai: the metered client of a model provider.
pub mod Pricing
pub mod Usage
pub mod Client
