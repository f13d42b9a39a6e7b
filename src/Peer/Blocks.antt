-- ===== src/Peer/Blocks.antt =====
-- src/torrent/peer.cpp: the case PIECE_BLOCK of Peer::handleMessage.
use ytorrent.Base.{
  ℕ, ◌+◌, ◌-◌, ◌/◌, ◌%◌, ◌^◌, List, [], ◌∷◌, ◌++◌, Option, some, none, ◌||◌, ◌==◌, ltb, leb,
  if◌then◌else◌, length, take, set, Outcome, done, undefined, ◌>>=◌,
}
use ytorrent.Net.Incoming.{IncomingMessage, get_size, extract_next_u32, cpy_buffer}
use ytorrent.Client.{
  Client, Peer, QueuedPiece, Block, Platform, modify_peer, run_peer, max_block_request_size,
  bad_piece_block, block_too_large, piece_not_asked_for, block_index_too_large,
}
use ytorrent.Torrent.Sizes.{piece_done}
use ytorrent.Torrent.Swarm.{handle_error}
use ytorrent.Torrent.Store.{handle_piece_completed}
use ytorrent.Peer.Request.{send_cancel_request}
use ytorrent.Peer.Messages.{keep_reading, select_unless_complete}

-- The first piece of the queue with that index.
unfoldable pub find_queued : ℕ → List QueuedPiece → Option QueuedPiece
find_queued index [] = none
find_queued index (q ∷ qs) = if q.index == index then some q else find_queued index qs

-- `pieceQueue.erase(it)` at the piece that `find_queued` finds.
unfoldable pub erase_queued : ℕ → List QueuedPiece → List QueuedPiece
erase_queued index [] = []
erase_queued index (q ∷ qs) = if q.index == index then qs else q ∷ erase_queued index qs

-- Writes through `*it`.
unfoldable pub update_queued : ℕ → QueuedPiece → List QueuedPiece → List QueuedPiece
update_queued index r [] = []
update_queued index r (q ∷ qs) = if q.index == index then r ∷ qs else q ∷ update_queued index r qs

abbrev pub on_queue : (List QueuedPiece → List QueuedPiece) → Peer → Peer
on_queue f x = record x { piece_queue = f x.piece_queue }

unfoldable pub read_block : ℕ → Option (List ℕ) → Outcome (List ℕ)
read_block size none = if size == 0 then done [] else undefined
read_block size (some bytes) = if leb size (length bytes) then done (take size bytes) else undefined

-- `data[0]` to `data[size - 1]` of a block.
unfoldable pub block_bytes : Block → Outcome (List ℕ)
block_bytes b = read_block b.size b.contents

-- The bytes of all blocks in order.
unfoldable pub assemble : List Block → Outcome (List ℕ)
assemble [] = done []
assemble (b ∷ bs) = do front ← block_bytes b; back ← assemble bs; done (front ++ back)

-- The block is stored and counted, whether or not it was there before.
unfoldable pub store_block : ℕ → ℕ → Option (List ℕ) → QueuedPiece → QueuedPiece
store_block block_index size bytes q = record q {
  blocks = set q.blocks block_index (record { size = size; contents = bytes });
  have_blocks = (q.have_blocks + 1) % 2 ^ 64;
}

-- The last block: the piece goes to the torrent and out of the queue, and another one is asked for.
unfoldable pub complete_piece : Platform → ℕ → ℕ → QueuedPiece → Client → Outcome Client
complete_piece platform p index q c = do
  piece_data ← assemble q.blocks
  d ← handle_piece_completed platform index piece_data c
  select_unless_complete p (modify_peer p (on_queue (erase_queued index)) d)

unfoldable pub add_block :
    Platform → ℕ → ℕ → ℕ → ℕ → IncomingMessage → QueuedPiece → Client → Outcome Client
add_block platform p index block_index size in_msg piece c = do
  bytes ← cpy_buffer size in_msg
  let q = store_block block_index size bytes piece
  let d = modify_peer p (on_queue (update_queued index q)) c
  (if q.have_blocks == q.total_blocks then complete_piece platform p index q d else done d)

-- A block of a piece that another peer delivered meanwhile.
unfoldable pub drop_piece : ℕ → ℕ → QueuedPiece → Client → Outcome Client
drop_piece p index piece c = do
  d ← run_peer p (send_cancel_request piece c.torrent) c
  done (modify_peer p (on_queue (erase_queued index)) d)

unfoldable pub take_block :
    Platform → ℕ → ℕ → ℕ → ℕ → IncomingMessage → Option QueuedPiece → Client → Outcome Client
take_block platform p index begin size in_msg none c =
    done (handle_error p (piece_not_asked_for index) c)
take_block platform p index begin size in_msg (some piece) c =
    if leb piece.total_blocks (begin / max_block_request_size)
    then done (handle_error p block_index_too_large c)
    else (do
      have_it ← piece_done c.torrent index
      d ←
          (if have_it
            then drop_piece p index piece c
            else add_block platform p index (begin / max_block_request_size) size in_msg piece c)
      done (keep_reading p d))

unfoldable pub on_piece_block : Platform → ℕ → IncomingMessage → Client → Outcome Client
on_piece_block platform p in_msg c =
    if ltb (get_size in_msg) 9 then done (handle_error p bad_piece_block c) else (do
      (index, in1) ← extract_next_u32 in_msg
      (begin, in2) ← extract_next_u32 in1
      let size = get_size in_msg - 8
      (if size == 0 || ltb max_block_request_size size
          then done (handle_error p (block_too_large size) c)
          else take_block platform p index begin size in2
              (find_queued index (c.peers p).piece_queue) c))
