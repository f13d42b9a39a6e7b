-- ===== src/Tracker.antt =====
-- src/torrent/tracker.cpp.
pub mod Request
pub mod Response
pub mod Announce
pub mod Reading
pub mod Effect
