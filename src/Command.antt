-- ===== src/Command.antt =====
-- cmd/wmii/message.c: the words, areas, frames and commands of control messages.
pub mod Words
pub mod Areas
pub mod Grow
pub mod Send
