-- ===== src/Tests/Exchange.antt =====
-- Messages that one client writes and another reads, the loop over blocks, and blocks that are served.
use ytorrent.Base.{ℕ, ◌+◌, ◌*◌, ◌≡◌, refl, List, [], ◌∷◌, true, inr, arith, done, ◌>>=◌}
use ytorrent.Tests.{all_code}
use ytorrent.Tests.Scenario.{toy_platform, piece_hash, finish_client}
use ytorrent.Client.{
  Client, Peer, Piece, Stream, set_peer, modify_peer, set_state, reset_state, peer_interested,
  am_choking, new_peer,
}
use ytorrent.Net.Link.{new_connection}
use ytorrent.Peer.MessageId
use ytorrent.Peer.Send.{request_message, have_message, send_request}
use ytorrent.Peer.Messages.{keep_reading}
use ytorrent.Peer.Request.{each_block}
use ytorrent.Peer.Wire.{receive}
use ytorrent.Peer.Wire.Requests.{receive-request_message}
use ytorrent.Peer.Wire.Haves.{Noted, with_pieces, receive-have_message}
use ytorrent.Peer.Tiling.{for_all, tiling, each_block-tiling}
use ytorrent.Torrent.Serve.{handle_block_request}
use ytorrent.Torrent.Serve.Slices.{
  answer, closed, handle_block_request-answers, handle_block_request-refuses,
}

-- Peer 0 is interested, and not choked.
abbrev pub asking_client : Client
asking_client =
    modify_peer 0 (λ x. set_state peer_interested (reset_state am_choking x)) finish_client

abbrev stored_file : Stream
stored_file = record { contents = 10 ∷ 11 ∷ 12 ∷ 13 ∷ []; position = 4; room = 1000 }

abbrev finished_piece : Piece
finished_piece = record { finished = true; priority = 1; hash = piece_hash }

receive-request_message_example :
    receive toy_platform 0 (request_message MessageId.request 0 1 2).data_buffer asking_client ≡ do
      d ← answer 0 0 1 (0 * asking_client.torrent.piece_length + 1) 2 stored_file asking_client
      done (keep_reading 0 d)
unfolding all_code
receive-request_message_example =
    receive-request_message toy_platform 0 0 1 2 4 finished_piece stored_file asking_client refl
      refl refl refl (omega arith) (omega arith) refl (omega arith) (omega arith) (omega arith)
      (omega arith) refl refl refl (omega arith) (omega arith)

receive-have_message_example :
    (has : List ℕ) × Noted 3 (asking_client.peers 0).has_piece_indexes has
    × (receive toy_platform 0 (have_message 3).data_buffer asking_client
        ≡ done (keep_reading 0 (modify_peer 0 (with_pieces has) asking_client)))
receive-have_message_example = receive-have_message toy_platform 0 asking_client 3 (omega arith)

abbrev stranger : Peer
stranger = new_peer new_connection

each_block-tiling_example :
    each_block (send_request 5) 40000 stranger ≡ for_all (send_request 5) (tiling 40000) stranger
each_block-tiling_example = each_block-tiling (send_request 5) 40000 stranger (omega arith)

handle_block_request-answers_example :
    handle_block_request toy_platform 0 0 1 2 asking_client
    ≡ answer 0 0 1 (0 * asking_client.torrent.piece_length + 1) 2 stored_file asking_client
unfolding all_code
handle_block_request-answers_example =
    handle_block_request-answers toy_platform 0 0 1 2 4 stored_file asking_client refl refl refl
      (omega arith) refl (omega arith) (omega arith) (omega arith) (omega arith) (omega arith)

handle_block_request-refuses_example :
    handle_block_request toy_platform 0 0 2 3 asking_client
    ≡ done (
        set_peer 0
          (record (asking_client.peers 0) { conn = closed (asking_client.peers 0).conn })
          asking_client)
unfolding all_code
handle_block_request-refuses_example =
    handle_block_request-refuses toy_platform 0 0 2 3 4 asking_client refl (omega arith)
      (inr (omega arith))
