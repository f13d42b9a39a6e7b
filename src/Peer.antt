-- ===== src/Peer.antt =====
-- src/torrent/peer.cpp.
pub mod MessageId
pub mod Send
pub mod Request
pub mod Messages
pub mod Blocks
pub mod Dispatch
pub mod Handshake
pub mod HasPiece
pub mod Wire
pub mod Tiling
pub mod Assembly
