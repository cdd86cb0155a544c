-- ===== src/Message.antt =====
-- cmd/wmii/message.c: the control-file language. Its parsers of masks, symbols and words.
pub mod Mask
pub mod Search
pub mod Bits
