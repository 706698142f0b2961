-- ===== src/Tests.antt =====
-- Runs of the modelled code on small inputs: a ring of four bytes, clocks of a few seconds, and the
-- requests that the plugin sends.
pub mod Fixtures
mod Rings
mod Decisions
mod Requests
mod Sinks
mod Harnesses
mod Passes
mod Deliveries
mod Accounts
mod Startups
