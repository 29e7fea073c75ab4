-- ===== src/Tests.antt =====
-- Concrete runs of the models: an environment, a store, and the theorems at them.
pub mod Fixtures
mod Stores
mod Sagas
mod Requests
mod Engines
pub mod Traces
mod Tasks
mod Locks
