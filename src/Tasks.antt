-- ===== src/Tasks.antt =====
-- The task queue of the desktop agent: the states of a task, its envelope and its store.
pub mod State
pub mod Envelope
pub mod Store
pub mod Runner
pub mod Registry
mod Tests
