-- ===== src/Graph.antt =====
-- domain/graph: the in-memory workflow graph and the rules that a publishable one satisfies.
pub mod Model
pub mod Handles
pub mod Cycles
pub mod Reach
pub mod Issues
pub mod Validation
