-- ===== src/Services.antt =====
-- The runtime-terminal services of app/services: claim, heartbeat, complete and fail, each one
-- transaction over the repositories.
pub mod Schemas
pub mod Claim
pub mod Heartbeat
pub mod Complete
pub mod Fail
pub mod Facade
pub mod Conflicts
