-- ===== src/Saga.antt =====
-- The saga module (saga/*.go), one child for each file or large part of one.
pub mod Definition
pub mod Builder
pub mod Errors
pub mod Store
pub mod JsonPath
pub mod Template
pub mod Runtime
pub mod Chains
pub mod Executor
pub mod Poller
pub mod Coordinator
pub mod Engine
pub mod Frame
pub mod Lifecycle
