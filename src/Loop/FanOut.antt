-- ===== src/Loop/FanOut.antt =====
-- src/loop/fanout.ts: branches run apart, and a join policy that brings their results together.
pub mod Branches
pub mod Join
pub mod Spread
pub mod Quorum
pub mod Selection
