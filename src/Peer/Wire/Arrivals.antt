-- ===== src/Peer/Wire/Arrivals.antt =====
-- sendPieceBlock and the PIECE_BLOCK case of handleMessage, src/torrent/peer.cpp, down to the queue.
use ytorrent.Base.{
  ℕ, ◌+◌, ◌/◌, ◌%◌, ◌^◌, ◌<◌, ◌≤◌, ◌≡◌, ◌≢◌, refl, ap, ◌∙◌, List, [], ◌∷◌, ◌++◌, some, false, ◌==◌,
  leb, if-cases, if◌then◌else◌, length, get_elem?, set, All, test_of_same, arith, tests, Outcome,
  done, ◌>>=◌,
}
use ytorrent.Net.Incoming.{IncomingMessage, cpy_buffer}
use ytorrent.Client.{
  Client, Peer, QueuedPiece, Platform, Piece, max_block_request_size, modify_peer,
}
use ytorrent.Torrent.Sizes.{piece_done, finished_flag}
use ytorrent.Peer.Send.{piece_block_message}
use ytorrent.Peer.Messages.{keep_reading}
use ytorrent.Peer.Blocks.{
  take_block, add_block, complete_piece, store_block, find_queued, update_queued, on_queue,
}
use ytorrent.Peer.Wire.{receive}
use ytorrent.Peer.Wire.Chunks.{block_reaches_take_block}

-- The piece stands in the queue, and none before it has its index.
abbrev pub IsQueued : ℕ → List QueuedPiece → QueuedPiece → List QueuedPiece → Peer → Type 0
IsQueued index front q rest x =
    (x.piece_queue ≡ front ++ q ∷ rest)
    × All (λ (r : QueuedPiece). r.index ≢ index) front
    × (q.index ≡ index)

other_index : (a b : ℕ) → a ≢ b → (a == b) ≡ false
other_index a b h = ground arith

find_queued-first :
    (index : ℕ) (front : List QueuedPiece) (q : QueuedPiece) (rest : List QueuedPiece)
    → All (λ (r : QueuedPiece). r.index ≢ index) front
    → q.index ≡ index
    → find_queued index (front ++ q ∷ rest) ≡ some q
unfolding find_queued
find_queued-first index [] q rest h e =
    ap (λ b. if b then some q else find_queued index rest) (test_of_same q.index index e)
find_queued-first index (r ∷ front) q rest (h, hs) e =
    ap (λ b. if b then some r else find_queued index (front ++ q ∷ rest))
      (other_index r.index index h)
    ∙ find_queued-first index front q rest hs e

update_queued-first :
    (index : ℕ) (front : List QueuedPiece) (q s : QueuedPiece) (rest : List QueuedPiece)
    → All (λ (r : QueuedPiece). r.index ≢ index) front
    → q.index ≡ index
    → update_queued index s (front ++ q ∷ rest) ≡ front ++ s ∷ rest
unfolding update_queued
update_queued-first index [] q s rest h e =
    ap (λ b. if b then s ∷ rest else q ∷ update_queued index s rest) (test_of_same q.index index e)
update_queued-first index (r ∷ front) q s rest (h, hs) e =
    ap (λ b. if b then s ∷ (front ++ q ∷ rest) else r ∷ update_queued index s (front ++ q ∷ rest))
      (other_index r.index index h)
    ∙ ap (λ l. r ∷ l) (update_queued-first index front q s rest hs e)

piece_done-missing :
    (c : Client) (index : ℕ) (piece : Piece)
    → get_elem? c.torrent.pieces index ≡ some piece
    → piece.finished ≡ false
    → piece_done c.torrent index ≡ done false
unfolding piece_done finished_flag
piece_done-missing c index piece e f = ap finished_flag e ∙ ap done f

abbrev pub with_queue : List QueuedPiece → Peer → Peer
with_queue queue x = record x { piece_queue = queue }

-- What the handler does once the block is stored in the piece `s`.
abbrev pub after_store : Platform → ℕ → ℕ → QueuedPiece → Client → Outcome Client
after_store platform p index s d = do
  e ← (if s.have_blocks == s.total_blocks then complete_piece platform p index s d else done d)
  done (keep_reading p e)

take_block-stores :
    (platform : Platform) (p index begin size : ℕ) (m : IncomingMessage) (bytes : List ℕ)
    (q : QueuedPiece) (c : Client)
    → cpy_buffer size m ≡ done (some bytes)
    → begin / max_block_request_size < q.total_blocks
    → piece_done c.torrent index ≡ done false
    → take_block platform p index begin size m (some q) c
      ≡ after_store platform p index
          (store_block (begin / max_block_request_size) size (some bytes) q)
          (modify_peer p
            (on_queue (
              update_queued index
                (store_block (begin / max_block_request_size) size (some bytes) q)))
            c)
unfolding take_block add_block
take_block-stores platform p index begin size m bytes q c copied inside missing =
    let k = begin / max_block_request_size in
    let s = store_block k size (some bytes) q in
    let result =
      after_store platform p index s (modify_peer p (on_queue (update_queued index s)) c) in
    if-cases (λ r. r ≡ result) (leb q.total_blocks k) (λ e. absurd (omega tests))
      (λ _. rw (missing, copied) refl)

-- A block of an unfinished piece of the queue is stored in it.
pub block_reaches_queue :
    (platform : Platform) (p index begin : ℕ) (block : List ℕ) (front : List QueuedPiece)
    (q : QueuedPiece) (rest : List QueuedPiece) (piece : Piece) (c : Client)
    → IsQueued index front q rest (c.peers p)
    → get_elem? c.torrent.pieces index ≡ some piece
    → piece.finished ≡ false
    → index < 2 ^ 32
    → begin < 2 ^ 32
    → 0 < length block
    → length block ≤ max_block_request_size
    → begin / max_block_request_size < q.total_blocks
    → let s = store_block (begin / max_block_request_size) (length block) (some block) q in
      receive platform p (piece_block_message index begin block (length block)).data_buffer c
      ≡ after_store platform p index s (modify_peer p (with_queue (front ++ s ∷ rest)) c)
block_reaches_queue platform p index begin block front q rest piece c (queue, firsts, same) listed
      missing hi hb some_bytes small inside =
    let s = store_block (begin / max_block_request_size) (length block) (some block) q in
    let (m, copied, e) =
      block_reaches_take_block platform p c index begin block hi hb some_bytes small in
    e
    ∙ ap (λ o. take_block platform p index begin (length block) m o c)
        (ap (find_queued index) queue ∙ find_queued-first index front q rest firsts same)
    ∙ take_block-stores platform p index begin (length block) m block q c copied inside
        (piece_done-missing c index piece listed missing)
    ∙ ap (λ l. after_store platform p index s (modify_peer p (with_queue l) c))
        (ap (update_queued index s) queue ∙ update_queued-first index front q s rest firsts same)

-- The piece with one more block.
abbrev pub one_more : QueuedPiece → ℕ → List ℕ → QueuedPiece
one_more q i block = record q {
  blocks = set q.blocks i (record { size = length block; contents = some block });
  have_blocks = q.have_blocks + 1;
}

store_block-one_more :
    (q : QueuedPiece) (i : ℕ) (block : List ℕ)
    → q.have_blocks + 1 < 2 ^ 64
    → store_block i (length block) (some block) q ≡ one_more q i block
unfolding store_block
store_block-one_more q i block h =
    ap
      (λ n. record q {
        blocks = set q.blocks i (record { size = length block; contents = some block });
        have_blocks = n;
      })
      {x = (q.have_blocks + 1) % 2 ^ 64} {y = q.have_blocks + 1} (omega arith)

pub not_last :
    (platform : Platform) (p index : ℕ) (s : QueuedPiece) (d : Client)
    → s.have_blocks < s.total_blocks
    → after_store platform p index s d ≡ done (keep_reading p d)
not_last platform p index s d h =
    ap
      (λ b. do
        e ← (if b then complete_piece platform p index s d else done d)
        done (keep_reading p e))
      {x = s.have_blocks == s.total_blocks} {y = false} (ground arith)

-- The bytes of sendPieceBlock for a block of 1 byte to 16 KiB that is there in full, received by a client
-- that waits for this piece and has not finished it, are stored with their length as the block of the
-- piece that `begin` lies in, and counted; where this is not the last block that was waited for, nothing
-- else changes, and the next message is read.
pub receive-piece_block_message :
    (platform : Platform) (p index begin : ℕ) (block : List ℕ) (front : List QueuedPiece)
    (q : QueuedPiece) (rest : List QueuedPiece) (piece : Piece) (c : Client)
    → IsQueued index front q rest (c.peers p)
    → get_elem? c.torrent.pieces index ≡ some piece
    → piece.finished ≡ false
    → index < 2 ^ 32
    → begin < 2 ^ 32
    → 0 < length block
    → length block ≤ max_block_request_size
    → begin / max_block_request_size < q.total_blocks
    → q.have_blocks + 1 < q.total_blocks
    → q.total_blocks < 2 ^ 64
    → receive platform p (piece_block_message index begin block (length block)).data_buffer c
      ≡ done (
          keep_reading p (
            modify_peer p
              (with_queue (front ++ one_more q (begin / max_block_request_size) block ∷ rest))
              c))
receive-piece_block_message platform p index begin block front q rest piece c queued listed missing
      hi hb some_bytes small inside more few =
    let s = one_more q (begin / max_block_request_size) block in
    block_reaches_queue platform p index begin block front q rest piece c queued listed missing hi
      hb some_bytes small inside
    ∙ ap (λ r. after_store platform p index r (modify_peer p (with_queue (front ++ r ∷ rest)) c))
        (store_block-one_more q (begin / max_block_request_size) block (omega arith))
    ∙ not_last platform p index s (modify_peer p (with_queue (front ++ s ∷ rest)) c) more
