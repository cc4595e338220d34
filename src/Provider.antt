-- ===== src/Provider.antt =====
-- providers/local: the single-user provider of the Host API, its durable store and its handlers.
pub mod Rows
pub mod Store
pub mod Node
pub mod Handlers
pub mod Operations
pub mod Artifacts
pub mod Deletion
pub mod Retries
pub mod Finished
pub mod Journal
pub mod Resume
pub mod Exec
mod Samples
pub mod Access
