-- ===== src/Peer/Request.antt =====
-- src/torrent/peer.cpp: asking for a piece, block by block, and cancelling it.
pub mod Loop
use mathlib.Core.WellFounded.{Acc}
use mathlib.Core.Logic.{dite}
use ytorrent.Base.{
  ℕ, ◌+◌, ◌-◌, ◌/◌, ◌%◌, ◌^◌, ◌<◌, [], ◌∷◌, ◌++◌, none, if◌then◌else◌, replicate, Outcome, done,
  ◌>>=◌, dec_lt, arith,
}
use ytorrent.Base.Order.{lt_wf}
use ytorrent.Client.{
  Client, Peer, Torrent, QueuedPiece, Block, peer_choking, test_state, run_peer, modify_peer,
  max_block_request_size, remotely_choked,
}
use ytorrent.Torrent.Sizes.{piece_size}
use ytorrent.Torrent.Swarm.{handle_error}
use ytorrent.Peer.Send.{send_interested, send_request, send_cancel}

pub shrinks : (size : ℕ) → max_block_request_size < size → size - max_block_request_size < size
shrinks size h = omega arith

-- `while (length > MAX_BLOCK_REQUEST_SIZE) { send; length -= MAX; begin += MAX; }`, then the last block.
unfoldable pub chunk_loop :
    (ℕ → ℕ → Peer → Outcome Peer) → ℕ → (size : ℕ) → Acc ◌<◌ size → Peer → Outcome Peer
chunk_loop send begin size (Acc.intro _ smaller) x =
    dite (dec_lt max_block_request_size size)
      (λ more. do
        y ← send begin max_block_request_size x
        chunk_loop send (begin + max_block_request_size) (size - max_block_request_size)
            (smaller (size - max_block_request_size) (shrinks size more)) y)
      (λ _. send begin size x)

-- The blocks of a piece of `size` bytes, each handed to `send`.
unfoldable pub each_block : (ℕ → ℕ → Peer → Outcome Peer) → ℕ → Peer → Outcome Peer
each_block send size x = chunk_loop send 0 size (lt_wf.apply size) x

unfoldable pub request_piece : ℕ → ℕ → Client → Outcome Client
request_piece p piece_index c =
    if test_state peer_choking (c.peers p) then done (handle_error p remotely_choked c) else do
      size ← piece_size c.torrent piece_index
      run_peer p (each_block (send_request piece_index) size) c

unfoldable pub send_cancel_request : QueuedPiece → Torrent → Peer → Outcome Peer
send_cancel_request q t x = do size ← piece_size t q.index; each_block (send_cancel q.index) size x

-- `ceil(double(pieceLength) / MAX_BLOCK_REQUEST_SIZE)`, which is exact for a uint32_t.
unfoldable pub num_blocks : ℕ → ℕ
num_blocks size = (size + (max_block_request_size - 1)) / max_block_request_size

abbrev pub empty_block : Block
empty_block = record { size = 0; contents = none }

unfoldable pub new_queued_piece : ℕ → ℕ → QueuedPiece
new_queued_piece index size = record {
  index = index;
  have_blocks = 0;
  total_blocks = num_blocks size;
  blocks = replicate (num_blocks size) empty_block;
}

abbrev pub enqueue : QueuedPiece → Peer → Peer
enqueue q x = record x { piece_queue = x.piece_queue ++ q ∷ [] }

-- The index and the length of the piece are uint32_t.
unfoldable pub send_piece_request : ℕ → ℕ → Client → Outcome Client
send_piece_request p index c = do
  let c' = modify_peer p send_interested c
  size ← piece_size c'.torrent (index % 2 ^ 32)
  let d = modify_peer p (enqueue (new_queued_piece (index % 2 ^ 32) (size % 2 ^ 32))) c'
  if test_state peer_choking (d.peers p) then done d else request_piece p (index % 2 ^ 32) d
