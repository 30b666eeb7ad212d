-- ===== src/Loop/State.antt =====
-- src/loop/state: what a loop keeps between its cycles.
pub mod Manifest
