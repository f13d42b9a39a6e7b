-- ===== src/Tests/Bits.antt =====
-- A bit field that goes from one client to another.
use ytorrent.Base.{◌+◌, ◌/◌, ◌≡◌, refl, [], ◌∷◌, true, false, length, arith}
use ytorrent.Tests.{all_code}
use ytorrent.Tests.Scenario.{toy_platform, finish_client}
use ytorrent.Tests.Exchange.{asking_client}
use ytorrent.Client.{Platform}
use ytorrent.Torrent.Bitfield.{get_raw_bitfield}
use ytorrent.Torrent.Bitfield.Bytes.{blocks_of, indexes}
use ytorrent.Peer.Send.{bitfield_message}
use ytorrent.Peer.Wire.{receive}
use ytorrent.Peer.Wire.Bits.{note_pieces, receive-bitfield_message}

-- A platform whose dynamic_bitset is boost's.
abbrev boost_platform : Platform
boost_platform = record toy_platform {
  to_block_range = λ bits. blocks_of ((length bits + 7) / 8) bits;
}

-- Pieces 0, 2 and 9 of ten.
raw_bytes :
    get_raw_bitfield boost_platform (record finish_client.torrent {
      bitfield = true ∷ false ∷ true ∷ false ∷ false ∷ false ∷ false ∷ false ∷ false ∷ true ∷ [];
    })
    ≡ 0xA0 ∷ 0x40 ∷ []
unfolding all_code
raw_bytes = refl

receive-bitfield_message_example :
    receive boost_platform 0
      (bitfield_message (get_raw_bitfield boost_platform finish_client.torrent)).data_buffer
      asking_client
    ≡ note_pieces 0 (indexes 0 finish_client.torrent.bitfield) asking_client
unfolding all_code
receive-bitfield_message_example =
    receive-bitfield_message boost_platform 0 finish_client.torrent asking_client refl (omega arith)
      (omega arith) refl
