-- ===== src/Tests.antt =====
-- A small scenario, and every theorem with hypotheses at work on it.
pub mod Scenario
mod Queues
mod Histories
mod Requests
mod Answers
mod Projects
mod Runs
mod Relay
mod Executors
mod Compiles
mod Blueprints
