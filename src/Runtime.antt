-- ===== src/Runtime.antt =====
-- The runtime as a whole: what the database says of a job and of a worker, the histories of requests
-- that change it, and what holds after every one of them.
pub mod View
pub mod Invariant
pub mod Steps
pub mod Histories
pub mod Terminal
pub mod Tokens
pub mod Outcomes
pub mod Endings
pub mod Refusals
pub mod Runs
pub mod Progress
pub mod Columns
pub mod Completion
pub mod Extensions
pub mod Offers
pub mod Views
