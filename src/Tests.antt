-- ===== src/Tests.antt =====
-- The library's theorems at concrete inputs.
mod Message
mod Util
mod Geom
mod Layout
mod Command
mod Client
mod Keys
