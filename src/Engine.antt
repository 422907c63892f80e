-- ===== src/Engine.antt =====
-- api/pkg/engine: the graph of a pipeline's stages and the scheduler that drives it.
pub mod Dag
pub mod Matrix
pub mod Cycles
pub mod Scheduler
pub mod Outputs
