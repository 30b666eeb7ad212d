-- ===== src/Tests.antt =====
-- Runs at concrete inputs, and an instance of each theorem that has a condition.
mod Loop
mod Conversation
mod Backends
mod Cli
mod Plan
mod Monitor
mod Stream
mod Review
