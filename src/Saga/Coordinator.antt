-- ===== src/Saga/Coordinator.antt =====
-- saga/coordinator.go: the queue of the coordinator and the drive loop of one transaction. `drive`
-- takes fuel for the rounds of its loop. Sleeping is not modelled, and logging changes nothing.
pub mod Compensation
pub mod Forward
pub mod Drive
pub mod Moves
pub mod Once
pub mod Laws
