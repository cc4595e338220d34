-- ===== src/Demo.antt =====
-- integrations/github-factory-demo/barista_github_factory_demo/store.py: the durable store of the
-- deliveries, programs, events and deployments.
pub mod Rows
pub mod Store
pub mod Deliveries
pub mod Answers
pub mod Programs
pub mod Features
pub mod Journeys
pub mod Activities
pub mod Deployments
pub mod Projections
pub mod Kept
pub mod Claims
pub mod Distinct
pub mod Reach
pub mod Refines
pub mod Immutable
pub mod Ready
pub mod Revisions
mod Samples
pub mod Progress
pub mod Saved
