-- ===== src/Peer/Tiling/Requests.antt =====
-- The requests that Peer::requestPiece, src/torrent/peer.cpp, writes for the blocks of a piece.
use mathlib.Core.List.{append_assoc, append-nil}
use ytorrent.Base.{
  ℕ, zero, suc, ◌+◌, ◌-◌, ◌*◌, ◌%◌, ◌^◌, ◌<◌, ◌≤◌, min, ◌≡◌, refl, ap, sym, ◌∙◌, List, [], ◌∷◌,
  ◌++◌, map, true, false, arith, done, ◌>>=◌, if◌then◌else◌,
}
use ytorrent.Net.Link.{write, write_message, is_connected}
use ytorrent.Net.Outgoing.{bytes_of, size_of, add_custom, add_u8, add_u32}
use ytorrent.Utils.Transcoder.{write_as_be32}
use ytorrent.Client.{
  Client, Peer, max_block_request_size, peer_choking, test_state, run_peer, set_peer,
  remotely_choked,
}
use ytorrent.Torrent.Sizes.{piece_size}
use ytorrent.Torrent.Swarm.{handle_error}
use ytorrent.Peer.MessageId
use ytorrent.Peer.Send.{send_request, request_message, write_out}
use ytorrent.Peer.Request.{request_piece, each_block, num_blocks}
use ytorrent.Peer.Tiling.{tiles, tiling, for_all, each_block-tiling}

-- The peer after further buffers were handed to asio.
abbrev pub asked : List (List ℕ) → Peer → Peer
asked buffers x = record x { conn = record x.conn { written = x.conn.written ++ buffers } }

-- The bytes of the request for a block.
abbrev pub request_of : ℕ → ℕ × ℕ → List ℕ
request_of index (begin, size) =
    (request_message MessageId.request (index % 2 ^ 32) begin size).data_buffer

small_mod : (n : ℕ) → n < 2 ^ 32 → n % 2 ^ 32 ≡ n
small_mod n h = omega arith

send_request-open :
    (index begin size : ℕ) (x : Peer)
    → is_connected x.conn ≡ true
    → begin < 2 ^ 32
    → size < 2 ^ 32
    → send_request index begin size x ≡ done (asked (request_of index (begin, size) ∷ []) x)
unfolding send_request write_out write_message write is_connected bytes_of size_of request_message
    add_custom add_u8 add_u32 write_as_be32
send_request-open index begin size x o hb hs = rw (small_mod begin hb, small_mod size hs, o) refl

asked-asked :
    (first rest : List (List ℕ)) (x : Peer) → asked rest (asked first x) ≡ asked (first ++ rest) x
asked-asked first rest x =
    ap (λ w. record x { conn = record x.conn { written = w } })
      (append_assoc x.conn.written first rest)

asked-nil : (x : Peer) → x ≡ asked [] x
asked-nil x =
    ap (λ w. record x { conn = record x.conn { written = w } }) (sym (append-nil x.conn.written))

for_all-send_request :
    (index i n size : ℕ) (x : Peer)
    → i + n ≤ num_blocks size
    → size < 2 ^ 32
    → is_connected x.conn ≡ true
    → for_all (send_request index) (tiles i n size) x
      ≡ done (asked (map (request_of index) (tiles i n size)) x)
unfolding for_all tiles num_blocks is_connected
for_all-send_request index i zero size x h k o = ap done (asked-nil x)
for_all-send_request index i (suc n) size x h k o =
    ap (λ m. m >>= for_all (send_request index) (tiles (suc i) n size))
      (send_request-open index (i * max_block_request_size)
        (min max_block_request_size (size - i * max_block_request_size)) x o (omega arith)
        (omega arith))
    ∙ for_all-send_request index (suc i) n size _ (omega arith) k o
    ∙ ap done (asked-asked _ (map (request_of index) (tiles (suc i) n size)) x)

-- Where the remote peer does not choke us, its socket is open, and the piece has a size from 1 byte on
-- that fits a uint32_t, requestPiece returns: it has handed one request for each block of the piece to
-- the socket, in order, and changed nothing else.
pub request_piece-requests :
    (p index size : ℕ) (c : Client)
    → test_state peer_choking (c.peers p) ≡ false
    → is_connected (c.peers p).conn ≡ true
    → piece_size c.torrent index ≡ done size
    → 0 < size
    → size < 2 ^ 32
    → request_piece p index c
      ≡ done (set_peer p (asked (map (request_of index) (tiling size)) (c.peers p)) c)
unfolding request_piece
request_piece-requests p index size c u o s h k =
    ap
      (λ b.
        if b
        then done (handle_error p remotely_choked c)
        else (piece_size c.torrent index >>= λ n. run_peer p (each_block (send_request index) n) c))
      u
    ∙ ap (λ m. m >>= λ n. run_peer p (each_block (send_request index) n) c) s
    ∙ ap (λ m. m >>= λ x. done (set_peer p x c))
        (each_block-tiling (send_request index) size (c.peers p) h
          ∙ for_all-send_request index 0 (num_blocks size) size (c.peers p) (omega arith) k o)
