-- ===== src/Plan.antt =====
-- src/plan: the tasks of a plan.
pub mod Persistent
