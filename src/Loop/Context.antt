-- ===== src/Loop/Context.antt =====
-- src/loop/context: managed context, that is staged compaction and the offload of large outputs.
pub mod Compaction
pub mod Offload
