-- ===== src/Torrent.antt =====
-- src/torrent/torrent.cpp.
pub mod Sizes
pub mod Swarm
pub mod Select
pub mod Disk
pub mod Store
pub mod Serve
pub mod Bitfield
pub mod Parse
pub mod Connect
pub mod Query
