-- ===== src/Orchestrator.antt =====
-- The orchestrator package, app/orchestrator: the state of a run, the operations that both
-- orchestrators share, and the simple orchestrator.
pub mod SharedState
pub mod State
pub mod Json
pub mod Base
pub mod Session
pub mod Simple
pub mod Graph
pub mod Construct
pub mod References
pub mod Turns
pub mod Sections
pub mod Samples
