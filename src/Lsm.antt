-- ===== src/Lsm.antt =====
-- The two bindings of db/ to the engines of the lsm-tree project.
pub mod Engine
pub mod Split
pub mod Unified
pub mod Contract
pub mod Agreement
pub mod Scans
pub mod Config
