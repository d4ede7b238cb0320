-- ===== src/Rules.antt =====
-- The analysis rules (domain/rules/).
pub mod Reachability
pub mod LoopGuard
pub mod Cycle
pub mod MaxParallel
pub mod ErrorHandler
pub mod RetryStorm
pub mod Registry
pub mod CircularAgents
pub mod Redundant
pub mod HumanGate
pub mod EvalDataset
pub mod Temperature
pub mod ToolArg
pub mod ToolDescription
pub mod Cost
