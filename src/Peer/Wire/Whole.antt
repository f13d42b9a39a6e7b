-- ===== src/Peer/Wire/Whole.antt =====
-- The blocks of a whole piece, from the messages to handlePieceCompleted: the PIECE_BLOCK case of
-- handleMessage, src/torrent/peer.cpp.
use ytorrent.Base.{
  ℕ, ◌+◌, ◌*◌, ◌/◌, ◌^◌, ◌<◌, ◌≡◌, refl, ap, ◌∙◌, List, [], ◌∷◌, ◌++◌, some, false, if◌then◌else◌,
  length, drop, get_elem?, All, Occurs, length-take, length-drop, test_of_same, arith, Outcome,
  done, ◌>>=◌, >>=-assoc,
}
use ytorrent.Client.{Client, QueuedPiece, Platform, Piece, max_block_request_size, modify_peer}
use ytorrent.Torrent.Store.{handle_piece_completed}
use ytorrent.Peer.Send.{piece_block_message}
use ytorrent.Peer.Messages.{keep_reading, select_unless_complete}
use ytorrent.Peer.Request.{num_blocks, new_queued_piece}
use ytorrent.Peer.Blocks.{complete_piece, store_block, assemble, erase_queued, on_queue}
use ytorrent.Peer.HasPiece.{Occurs→has_piece}
use ytorrent.Peer.Tiling.{>>=-done}
use ytorrent.Peer.Assembly.{slice, block_size, block_of, deliver, assemble-deliver}
use ytorrent.Peer.Wire.{receive}
use ytorrent.Peer.Wire.Arrivals.{IsQueued, with_queue, after_store, block_reaches_queue, not_last}

-- The bytes of block `i` of a piece.
abbrev pub chunk : List ℕ → ℕ → List ℕ
chunk bytes i = slice bytes (i * max_block_request_size) (block_size bytes i)

-- The blocks of a piece are received, in the order of a list of their numbers.
unfoldable pub receive_blocks : Platform → ℕ → ℕ → List ℕ → List ℕ → Client → Outcome Client
receive_blocks platform p index bytes [] c = done c
receive_blocks platform p index bytes (i ∷ order) c = do
  d ←
      receive platform p
        (piece_block_message index (i * max_block_request_size) (chunk bytes i)
          (length (chunk bytes i))).data_buffer
        c
  receive_blocks platform p index bytes order d

length-chunk : (bytes : List ℕ) (i : ℕ) → length (chunk bytes i) ≡ block_size bytes i
length-chunk bytes i = omega (
  arith,
  length-take (block_size bytes i) (drop (i * max_block_request_size) bytes),
  length-drop (i * max_block_request_size) bytes,
)

inside_piece :
    (n i : ℕ)
    → i < num_blocks n
    → (i * max_block_request_size < n) × (i * max_block_request_size / max_block_request_size ≡ i)
unfolding num_blocks
inside_piece n i h = (omega arith, omega arith)

stored : List ℕ → ℕ → QueuedPiece → QueuedPiece
stored bytes i q = store_block i (block_of bytes i).size (block_of bytes i).contents q

store_block-stored :
    (bytes : List ℕ) (i k : ℕ) (q : QueuedPiece)
    → k ≡ i
    → store_block k (length (chunk bytes i)) (some (chunk bytes i)) q ≡ stored bytes i q
unfolding stored block_of
store_block-stored bytes i k q e =
    ap (λ j. store_block j (length (chunk bytes i)) (some (chunk bytes i)) q) e
    ∙ ap (λ n. store_block i n (some (chunk bytes i)) q) (length-chunk bytes i)

last_block :
    (platform : Platform) (p index : ℕ) (s : QueuedPiece) (d : Client)
    → s.have_blocks ≡ s.total_blocks
    → after_store platform p index s d
      ≡ (complete_piece platform p index s d >>= λ e. done (keep_reading p e))
last_block platform p index s d h =
    ap
      (λ b. do
        e ← (if b then complete_piece platform p index s d else done d)
        done (keep_reading p e))
      (test_of_same s.have_blocks s.total_blocks h)

queue_after :
    (p : ℕ) (l : List QueuedPiece) (c : Client)
    → ((keep_reading p (modify_peer p (with_queue l) c)).peers p).piece_queue ≡ l
unfolding keep_reading
queue_after p l c = rw (test_of_same p p refl) refl

module _ (platform : Platform) (p index : ℕ) (bytes : List ℕ) (front rest : List QueuedPiece)
    (piece : Piece) (missing : piece.finished ≡ false) (hi : index < 2 ^ 32)
    (short : length bytes < 2 ^ 32) where
  chunk_reaches_queue :
      (i : ℕ) (q : QueuedPiece) (c : Client)
      → IsQueued index front q rest (c.peers p)
      → get_elem? c.torrent.pieces index ≡ some piece
      → i < num_blocks (length bytes)
      → q.total_blocks ≡ num_blocks (length bytes)
      → receive platform p
          (piece_block_message index
            (i * max_block_request_size)
            (chunk bytes i)
            (length (chunk bytes i))).data_buffer
          c
        ≡ after_store platform p index
            (stored bytes i q)
            (modify_peer p (with_queue (front ++ stored bytes i q ∷ rest)) c)
  chunk_reaches_queue i q c queued listed known total =
      let (inside, back) = inside_piece (length bytes) i known in
      block_reaches_queue platform p index (i * max_block_request_size) (chunk bytes i) front q rest
        piece c queued listed missing hi (omega arith) (omega (arith, length-chunk bytes i))
        (omega (arith, length-chunk bytes i)) (omega (arith, back, total, known))
      ∙ ap (λ s. after_store platform p index s (modify_peer p (with_queue (front ++ s ∷ rest)) c))
          (store_block-stored bytes i (i * max_block_request_size / max_block_request_size) q back)

  receive_blocks-completes :
      (i : ℕ) (order : List ℕ) (q : QueuedPiece) (c : Client)
      → IsQueued index front q rest (c.peers p)
      → get_elem? c.torrent.pieces index ≡ some piece
      → All (λ j. j < num_blocks (length bytes)) (i ∷ order)
      → q.total_blocks ≡ num_blocks (length bytes)
      → q.have_blocks + length (i ∷ order) ≡ q.total_blocks
      → (d : Client) × (d.torrent ≡ c.torrent)
        × (receive_blocks platform p index bytes (i ∷ order) c ≡ do
          e ← complete_piece platform p index (deliver bytes (i ∷ order) q) d
          done (keep_reading p e))
  unfolding receive_blocks deliver stored store_block num_blocks keep_reading
  receive_blocks-completes i [] q c queued listed (known, _) total count =
      let s = stored bytes i q in
      let d = modify_peer p (with_queue (front ++ s ∷ rest)) c in
      (
        d,
        refl,
        >>=-done (receive platform p _ c)
            ∙ chunk_reaches_queue i q c queued listed known total
            ∙ last_block platform p index s d (omega arith),
      )
  receive_blocks-completes i (j ∷ order) q c queued listed (known, knowns) total count =
      let s = stored bytes i q in
      let d = modify_peer p (with_queue (front ++ s ∷ rest)) c in
      let (c', same, e) =
        receive_blocks-completes j order s (keep_reading p d)
          (queue_after p (front ++ s ∷ rest) c, queued.1, queued.2) listed knowns total
          (omega arith) in
      (
        c',
        same,
        ap (λ m. m >>= receive_blocks platform p index bytes (j ∷ order))
              (chunk_reaches_queue i q c queued listed known total
                ∙ not_last platform p index s d (omega arith))
            ∙ e,
      )

complete_piece-assembled :
    (platform : Platform) (p index : ℕ) (bytes : List ℕ) (s : QueuedPiece) (d : Client)
    → assemble s.blocks ≡ done bytes
    → complete_piece platform p index s d ≡ do
      e ← handle_piece_completed platform index bytes d
      select_unless_complete p (modify_peer p (on_queue (erase_queued index)) e)
unfolding complete_piece
complete_piece-assembled platform p index bytes s d e =
    ap
      (λ m. do
        whole ← m
        e ← handle_piece_completed platform index whole d
        select_unless_complete p (modify_peer p (on_queue (erase_queued index)) e))
      e

-- A client waits for a piece of at least one byte and less than 2 ^ 32, and has not finished it. Where each
-- of the piece's blocks is received once, in whatever order, as sendPieceBlock writes it, the last one
-- makes it call handlePieceCompleted with exactly the bytes of the piece, on a client whose torrent is
-- still the same; then the piece leaves the queue, another one is looked for, and the next message is read.
pub receive_blocks-completed :
    (platform : Platform) (p index : ℕ) (bytes order : List ℕ) (front rest : List QueuedPiece)
    (piece : Piece) (c : Client)
    → IsQueued index front (new_queued_piece index (length bytes)) rest (c.peers p)
    → get_elem? c.torrent.pieces index ≡ some piece
    → piece.finished ≡ false
    → index < 2 ^ 32
    → 0 < length bytes
    → length bytes < 2 ^ 32
    → All (λ i. i < num_blocks (length bytes)) order
    → ((i : ℕ) → i < num_blocks (length bytes) → Occurs i order)
    → length order ≡ num_blocks (length bytes)
    → (d : Client) × (d.torrent ≡ c.torrent)
      × (receive_blocks platform p index bytes order c ≡ do
        e ← handle_piece_completed platform index bytes d
        f ← select_unless_complete p (modify_peer p (on_queue (erase_queued index)) e)
        done (keep_reading p f))
unfolding new_queued_piece num_blocks
receive_blocks-completed platform p index bytes [] front rest piece c queued listed missing hi
      some_bytes short known each once =
    absurd (omega arith)
receive_blocks-completed platform p index bytes (i ∷ order) front rest piece c queued listed missing
      hi some_bytes short known each once =
    let q = new_queued_piece index (length bytes) in
    let (d, same, e) =
      receive_blocks-completes platform p index bytes front rest piece missing hi short i order q c
        queued listed known refl (omega arith) in
    (
      d,
      same,
      e
          ∙ ap (λ m. m >>= λ f. done (keep_reading p f))
              (complete_piece-assembled platform p index bytes (deliver bytes (i ∷ order) q) d (
                assemble-deliver bytes (i ∷ order) index
                  (λ j h. Occurs→has_piece (i ∷ order) j (each j h))))
          ∙ >>=-assoc (handle_piece_completed platform index bytes d)
              (λ f. select_unless_complete p (modify_peer p (on_queue (erase_queued index)) f))
              (λ f. done (keep_reading p f)),
    )
