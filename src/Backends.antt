-- ===== src/Backends.antt =====
-- src/backends: how the streams of the backends become conversations.
pub mod Stream
pub mod Codex
pub mod Claude
pub mod Pi
