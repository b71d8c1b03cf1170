-- ===== src/Tests.antt =====
-- Runs of the definitions on concrete data, and each theorem at an input that meets its hypotheses.
mod WindowRuns
mod AgentRuns
mod BehaviorRuns
pub mod MemoryRuns
mod LoopRuns
pub mod Ints
pub mod Toys
mod DispatchRuns
pub mod SchemaRuns
mod ResponseRuns
mod ServerRuns
mod SpatialRuns
mod StarterRuns
pub mod TraceRuns
