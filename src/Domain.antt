-- ===== src/Domain.antt =====
-- The core types of a workflow analysis (domain/).
pub mod NodeType
pub mod Value
pub mod Finding
pub mod Float
pub mod Graph
pub mod Config
pub mod Context
pub mod Baseline
