-- ===== src/Sdk.antt =====
-- sdks/python/barista_app_sdk: the App Run documents, their validation against an app, and the
-- collection of a run's result.
pub mod Json
pub mod Names
pub mod Runs
pub mod Fields
pub mod Bindings
pub mod RoundTrip
pub mod Validate
pub mod Declared
pub mod Lifecycle
pub mod Collect
pub mod Waiting
pub mod Identity
pub mod Verified
pub mod Intact
mod Samples
