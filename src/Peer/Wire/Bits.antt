-- ===== src/Peer/Wire/Bits.antt =====
-- The bit field that a client sends after the handshake, and the pieces that the receiver notes: sendBitfield
-- and the case BITFIELD of src/torrent/peer.cpp.
use ytorrent.Base.{
  ℕ, zero, suc, ◌+◌, ◌*◌, ◌/◌, ◌%◌, ◌^◌, ◌≤◌, ◌<◌, ◌≡◌, refl, ap, ◌∙◌, List, ◌∷◌, ◌++◌, Bool, ltb,
  if-cases, tests, map, length, length-map, take_all, arith, Outcome, done, ◌>>=◌,
}
use ytorrent.Utils.Transcoder.{write_as_be32}
use ytorrent.Net.Incoming.{incoming_message, get_size, get_buffer}
use ytorrent.Net.Outgoing.{add_custom, add_u8, add_u32}
use ytorrent.Client.{Client, Torrent, Platform, modify_peer}
use ytorrent.Torrent.Bitfield.{reverse_bits, get_raw_bitfield}
use ytorrent.Torrent.Bitfield.Bytes.{blocks_of, indexes, add_bytes-blocks_of}
use ytorrent.Peer.MessageId
use ytorrent.Peer.Send.{bitfield_message}
use ytorrent.Peer.Messages.{select_unless_complete, on_bitfield, keep_reading}
use ytorrent.Peer.Dispatch.{handle_body, size_minus_one, handle_message}
use ytorrent.Peer.Wire.{word, receive, receive-frame}

bitfield_frame :
    (r : List ℕ)
    → 1 + length r < 2 ^ 32
    → (bitfield_message r).data_buffer ≡ word (1 + length r) ++ (MessageId.bitfield ∷ r)
unfolding bitfield_message add_u32 add_u8 add_custom write_as_be32
bitfield_frame r h =
    let whole : (1 + length r) % 2 ^ 32 ≡ 1 + length r = omega (arith, h) in
    rw (whole, take_all (length r) r refl) refl

-- What the receiver does with the places `found`.
abbrev pub note_pieces : ℕ → List ℕ → Client → Outcome Client
note_pieces p found c =
    select_unless_complete p
      (modify_peer p (λ x. record x { has_piece_indexes = x.has_piece_indexes ++ found }) c)
    >>= (λ d. done (keep_reading p d))

length-blocks_of : (n : ℕ) (bits : List Bool) → length (blocks_of n bits) ≡ n
length-blocks_of zero bits = refl
length-blocks_of (suc n) bits = ap suc (length-blocks_of n _)

on_bitfield-blocks_of :
    (p n : ℕ) (bits : List Bool) (c : Client)
    → 0 < length bits
    → length bits ≤ n * 8
    → n * 8 < length bits + 8
    → length bits ≡ length c.torrent.pieces
    → on_bitfield p (incoming_message (map reverse_bits (blocks_of n bits)) n) c
      ≡ note_pieces p (indexes 0 bits) c
unfolding on_bitfield get_size get_buffer
on_bitfield-blocks_of p n bits c some_bits h tight same =
    if-cases (λ m. m ≡ note_pieces p (indexes 0 bits) c) (ltb n 1) (λ e. absurd (omega tests))
      (λ _.
        rw
          (add_bytes-blocks_of n 0 (length c.torrent.pieces) bits (c.peers p).has_piece_indexes h
            tight (omega (arith, same)))
          refl)

-- The bit field that one client sends makes the other note, for the sender, exactly the pieces whose bits
-- are set, in order, and then look for a piece to ask for. The torrents have equally many pieces, at least
-- one, and to_block_range gives 8 bits a byte, the first bit lowest, as boost documents it.
pub receive-bitfield_message :
    (platform : Platform) (p : ℕ) (t : Torrent) (c : Client)
    → platform.to_block_range t.bitfield ≡ blocks_of ((length t.bitfield + 7) / 8) t.bitfield
    → 0 < length t.bitfield
    → length t.bitfield < 2 ^ 32
    → length t.bitfield ≡ length c.torrent.pieces
    → receive platform p (bitfield_message (get_raw_bitfield platform t)).data_buffer c
      ≡ note_pieces p (indexes 0 t.bitfield) c
unfolding handle_body size_minus_one handle_message get_raw_bitfield
receive-bitfield_message platform p t c law some_bits few same =
    let n = (length t.bitfield + 7) / 8 in
    let raw = map reverse_bits (platform.to_block_range t.bitfield) in
    let size : length raw ≡ n =
      length-map (platform.to_block_range t.bitfield) reverse_bits
      ∙ ap length law
      ∙ length-blocks_of n t.bitfield in
    let one_off : size_minus_one (1 + length raw) ≡ n =
      ap size_minus_one {x = 1 + length raw} {y = suc (length raw)} (omega arith) ∙ size in
    receive-frame platform p (1 + length raw) (MessageId.bitfield ∷ raw) c (omega (arith, size))
      (bitfield_frame raw (omega (arith, size)))
      (take_all (1 + length raw) (MessageId.bitfield ∷ raw) (omega arith))
    ∙ ap (λ k. on_bitfield p (incoming_message raw k) c) one_off
    ∙ ap (λ bytes. on_bitfield p (incoming_message (map reverse_bits bytes) n) c) law
    ∙ on_bitfield-blocks_of p n t.bitfield c some_bits (omega arith) (omega arith) same
