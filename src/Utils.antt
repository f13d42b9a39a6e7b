-- ===== src/Utils.antt =====
-- src/utils: the byte-order helpers of transcoder.hpp, and the text of utils.cpp.
pub mod Transcoder
pub mod Text
pub mod TrackerUrl
