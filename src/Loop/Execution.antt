-- ===== src/Loop/Execution.antt =====
-- src/loop/execution.ts: the loop that evaluates, acts and stops.
pub mod Step
pub mod Managed
pub mod Run
