-- ===== src/Tests.antt =====
-- Runs of the definitions, and each result at concrete data.
mod Data
mod JobTable
mod Ticking
mod Plans
mod Matching
mod Running
mod Streaming
mod Throttling
mod Codec
mod Configuring
mod Metering
mod Wiring
mod Reloading
