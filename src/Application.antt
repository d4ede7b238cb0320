-- ===== src/Application.antt =====
-- The use cases (application/).
pub mod Walker
pub mod PathWalker
pub mod Orchestrator
pub mod Policy
pub mod Ignore
pub mod Multi
