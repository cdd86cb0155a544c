-- ===== src/Client.antt =====
-- cmd/wmii/client.c: the frames of a client and the tags that put it on views.
pub mod Views
pub mod Tags
