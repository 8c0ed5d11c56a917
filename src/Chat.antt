-- ===== src/Chat.antt =====
-- internal/chat: stored messages and the sessions that read and write them.
pub mod Store
pub mod Sessions
pub mod Encryption
