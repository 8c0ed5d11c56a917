-- ===== src/File.antt =====
-- internal/file: chunks and their files, the window, sessions, and the transfer loops.
pub mod Disk
pub mod Chunks
pub mod Receiver
pub mod Window
pub mod Protocol
pub mod Session
pub mod Transfer
pub mod Manager
