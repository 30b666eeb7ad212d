-- ===== src/Tests/Loop.antt =====
-- Runs of the parts of src/loop.
mod Termination
mod State
mod Context
mod Execution
mod FanOut
mod Graph
