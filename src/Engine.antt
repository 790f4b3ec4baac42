-- ===== src/Engine.antt =====
-- domain/engine: what a run and a node execution may do next, one scheduler tick, and the
-- invocation of one node.
pub mod State
pub mod Snapshot
pub mod Scheduler
pub mod FanIn
pub mod Invocation
