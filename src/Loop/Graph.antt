-- ===== src/Loop/Graph.antt =====
-- src/loop/graph and src/loop/termination-contract.ts.
pub mod Analyze
pub mod Contract
pub mod Topology
pub mod Fuel
pub mod Search
