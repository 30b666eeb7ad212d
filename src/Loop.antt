-- ===== src/Loop.antt =====
-- src/loop: the loop engine and what it stands on.
pub mod Termination
pub mod Context
pub mod Execution
pub mod FanOut
pub mod Graph
pub mod State
pub mod Firing
