-- ===== src/Conversation.antt =====
-- src/conversation: what carries a conversation's events.
pub mod Queue
pub mod Settlement
pub mod Stream
