-- ===== src/Peer/Wire/Requests.antt =====
-- sendRequest and the REQUEST case of handleMessage, src/torrent/peer.cpp, down to the block that is sent.
use ytorrent.Base.{
  ℕ, ◌+◌, ◌*◌, ◌^◌, ◌<◌, ◌≤◌, ◌≡◌, refl, ap, ◌∙◌, some, true, false, ltb, if-cases, length,
  get_elem?, arith, tests, done, ◌>>=◌,
}
use ytorrent.Client.{
  Client, Platform, Piece, Stream, max_block_request_size, test_state, peer_interested, am_choking,
}
use ytorrent.Torrent.Sizes.{piece_size, piece_done, finished_flag}
use ytorrent.Torrent.Serve.{handle_block_request}
use ytorrent.Torrent.Serve.Slices.{answer, handle_block_request-answers}
use ytorrent.Peer.MessageId
use ytorrent.Peer.Send.{request_message}
use ytorrent.Peer.Messages.{keep_reading, serve}
use ytorrent.Peer.Wire.{receive, request_reaches_serve}

piece_done-finished :
    (c : Client) (index : ℕ) (piece : Piece)
    → get_elem? c.torrent.pieces index ≡ some piece
    → piece.finished ≡ true
    → piece_done c.torrent index ≡ done true
unfolding piece_done finished_flag
piece_done-finished c index piece e f = ap finished_flag e ∙ ap done f

serve-finished :
    (platform : Platform) (p index begin size : ℕ) (c : Client)
    → size ≤ max_block_request_size
    → piece_done c.torrent index ≡ done true
    → serve platform p (index, begin, size) c
      ≡ (handle_block_request platform p index begin size c >>= λ d. done (keep_reading p d))
unfolding serve
serve-finished platform p index begin size c small finished =
    let result = (do
      d ← handle_block_request platform p index begin size c
      done (keep_reading p d)) in
    if-cases (λ m. m ≡ result) (ltb max_block_request_size size) (λ e. absurd (omega tests))
      (λ _. rw finished refl)

-- The bytes of sendRequest for a block of 1 byte to 16 KiB inside a finished piece, received from a peer
-- that is interested and not choked, are answered with the block: sendPieceBlock is called with the bytes
-- of the open file from index times the piece length plus begin on, they are counted, and the next message
-- is read.
pub receive-request_message :
    (platform : Platform) (p index begin size limit : ℕ) (piece : Piece) (s : Stream) (c : Client)
    → test_state peer_interested (c.peers p) ≡ true
    → test_state am_choking (c.peers p) ≡ false
    → get_elem? c.torrent.pieces index ≡ some piece
    → piece.finished ≡ true
    → index < length c.torrent.pieces
    → index < 2 ^ 32
    → piece_size c.torrent index ≡ done limit
    → limit < 2 ^ 32
    → 0 < size
    → size ≤ max_block_request_size
    → begin + size ≤ limit
    → length (platform.new_array size) ≡ size
    → c.torrent.file.fp ≡ some s
    → c.torrent.file.begin ≡ 0
    → index * c.torrent.piece_length + begin + size ≤ length s.contents
    → length s.contents < 2 ^ 63
    → receive platform p (request_message MessageId.request index begin size).data_buffer c ≡ do
      d ← answer p index begin (index * c.torrent.piece_length + begin) size s c
      done (keep_reading p d)
receive-request_message platform p index begin size limit piece s c asked unchoked listed finished
      known_index narrow_index known narrow some_bytes small within array opened start inside
      short =
    request_reaches_serve platform p c index begin size narrow_index (omega arith) (omega arith)
      asked unchoked
    ∙ serve-finished platform p index begin size c small
        (piece_done-finished c index piece listed finished)
    ∙ ap (λ m. m >>= λ d. done (keep_reading p d))
        (handle_block_request-answers platform p index begin size limit s c array opened start
          known_index known narrow some_bytes within inside short)
