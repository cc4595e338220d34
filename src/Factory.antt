-- ===== src/Factory.antt =====
-- apps/factory/barista_app_factory: the Factory coordinator, its durable state, its credential and
-- the grant of its workers.
pub mod State
pub mod Grants
pub mod Credential
pub mod Host
pub mod Graph
pub mod Worker
pub mod Coordinator
pub mod Unreachable
pub mod Restart
pub mod Margin
pub mod Settled
pub mod Harvest
pub mod Recovery
pub mod Pool
pub mod Filled
mod Samples
pub mod Plan
