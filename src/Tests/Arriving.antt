-- ===== src/Tests/Arriving.antt =====
-- The blocks of a piece that a client waits for.
use ytorrent.Base.{
  ℕ, zero, suc, ◌<◌, ◌≡◌, refl, List, [], ◌∷◌, length, replicate, length-replicate, false, All,
  Occurs, arith, done, ◌>>=◌,
}
use ytorrent.Tests.Scenario.{toy_platform, finish_client}
use ytorrent.Client.{Client, Piece, QueuedPiece, modify_peer, on_torrent}
use ytorrent.Torrent.Store.{handle_piece_completed}
use ytorrent.Peer.Send.{piece_block_message}
use ytorrent.Peer.Messages.{keep_reading, select_unless_complete}
use ytorrent.Peer.Request.{num_blocks, new_queued_piece}
use ytorrent.Peer.Blocks.{erase_queued, on_queue}
use ytorrent.Peer.Wire.{receive}
use ytorrent.Peer.Wire.Arrivals.{with_queue, one_more, receive-piece_block_message}
use ytorrent.Peer.Wire.Whole.{receive_blocks, receive_blocks-completed}

abbrev long_piece : List ℕ
long_piece = replicate 20000 7

abbrev missing_piece : Piece
missing_piece = record { finished = false; priority = 1; hash = [] }

-- Two blocks, of which none is there.
abbrev awaited : QueuedPiece
awaited = new_queued_piece 0 (length long_piece)

abbrev waiting_client : Client
waiting_client =
    modify_peer 0 (with_queue (awaited ∷ [])) (
      on_torrent (λ t. record t { pieces = missing_piece ∷ []; piece_length = 32768 })
        finish_client)

two_blocks : num_blocks (length long_piece) ≡ 2
unfolding num_blocks
two_blocks = omega (arith, length-replicate {A = ℕ} 20000 7)

-- The second block comes first.
receive-piece_block_message_example :
    receive toy_platform 0 (piece_block_message 0 16384 (8 ∷ 9 ∷ []) 2).data_buffer waiting_client
    ≡ done (
        keep_reading 0
          (modify_peer 0 (with_queue (one_more awaited 1 (8 ∷ 9 ∷ []) ∷ [])) waiting_client))
unfolding new_queued_piece
receive-piece_block_message_example =
    receive-piece_block_message toy_platform 0 0 16384 (8 ∷ 9 ∷ []) [] awaited [] missing_piece
      waiting_client (refl, tt, refl) refl refl (omega arith) (omega arith) (omega arith)
      (omega arith) (omega (arith, two_blocks)) (omega (arith, two_blocks))
      (omega (arith, two_blocks))

both_arrive : (i : ℕ) → i < num_blocks (length long_piece) → Occurs i (1 ∷ 0 ∷ [])
both_arrive zero h = (1, refl)
both_arrive (suc zero) h = (0, refl)
both_arrive (suc (suc i)) h = absurd (omega (arith, two_blocks))

known_blocks : All (λ i. i < num_blocks (length long_piece)) (1 ∷ 0 ∷ [])
known_blocks = (omega (arith, two_blocks), (omega (arith, two_blocks), tt))

receive_blocks-completed_example :
    (d : Client) × (d.torrent ≡ waiting_client.torrent)
    × (receive_blocks toy_platform 0 0 long_piece (1 ∷ 0 ∷ []) waiting_client ≡ do
      e ← handle_piece_completed toy_platform 0 long_piece d
      f ← select_unless_complete 0 (modify_peer 0 (on_queue (erase_queued 0)) e)
      done (keep_reading 0 f))
unfolding new_queued_piece
receive_blocks-completed_example =
    receive_blocks-completed toy_platform 0 0 long_piece (1 ∷ 0 ∷ []) [] [] missing_piece
      waiting_client (refl, tt, refl) refl refl (omega arith)
      (omega (arith, length-replicate {A = ℕ} 20000 7))
      (omega (arith, length-replicate {A = ℕ} 20000 7)) known_blocks both_arrive
      (omega (arith, two_blocks))
