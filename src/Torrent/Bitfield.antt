-- ===== src/Torrent/Bitfield.antt =====
-- src/torrent/torrent.cpp: the bit field as the bytes of a message.
pub mod Bytes
use ytorrent.Base.{ℕ, ◌*◌, ◌/◌, ◌%◌, ◌^◌, bit_and, bit_or, List, map}
use ytorrent.Client.{Torrent, Platform}

-- The bits of a byte in reverse, by three exchanges.
unfoldable pub reverse_bits : ℕ → ℕ
reverse_bits b =
    let b1 = bit_or (bit_and b 0xF0 / 2 ^ 4) (bit_and b 0x0F * 2 ^ 4) % 256 in
    let b2 = bit_or (bit_and b1 0xCC / 2 ^ 2) (bit_and b1 0x33 * 2 ^ 2) % 256 in
    bit_or (bit_and b2 0xAA / 2 ^ 1) (bit_and b2 0x55 * 2 ^ 1) % 256

unfoldable pub get_raw_bitfield : Platform → Torrent → List ℕ
get_raw_bitfield platform t = map reverse_bits (platform.to_block_range t.bitfield)
