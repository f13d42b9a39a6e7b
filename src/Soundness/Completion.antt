-- ===== src/Soundness/Completion.antt =====
-- A block that arrives, and a piece that is complete.
use ytorrent.Base.{
  ℕ, zero, suc, ◌*◌, ◌%◌, ◌≤◌, ◌≡◌, subst, List, [], ◌∷◌, Option, some, none, Bool, false, not,
  ◌==◌, leb, length, length-append, length-set, length-take, set, get_elem?, All, arith, done,
  Ensures, Ensures-then, >>=-Ensures, if-elim, if-cases, inl, inr, Bool-cases, leb→le,
}
use ytorrent.Net.Incoming.{IncomingMessage, cpy_buffer}
use ytorrent.Client.{
  Client, Torrent, Piece, Block, QueuedPiece, Platform, max_block_request_size, run_peer,
  modify_peer,
}
use ytorrent.Torrent.Sizes.{is_fully_downloaded, piece_done, finished_flag, check_piece_hash}
use ytorrent.Torrent.Store.{accept_piece, announce, count_miss, handle_piece_completed}
use ytorrent.Peer.Send.{send_have}
use ytorrent.Peer.Request.{send_cancel_request}
use ytorrent.Peer.Messages.{select_unless_complete}
use ytorrent.Peer.Blocks.{
  find_queued, erase_queued, update_queued, on_queue, read_block, block_bytes, assemble,
  store_block, complete_piece, add_block, drop_piece,
}
use ytorrent.Soundness.{IsQueued, SoundTorrent, Sound}
use ytorrent.Soundness.Store.{check_piece_hash_lem, accept_piece-SoundTorrent}
use ytorrent.Soundness.Peers.{
  run_peer-Sound, set_peer-Sound, send_have-KeepsQueue, send_cancel_request-KeepsQueue,
}
use ytorrent.Soundness.Choice.{select_piece_and_request-Sound}

-- A block holds as many bytes as its size says.
pub block_bytes-length : (b : Block) → Ensures (λ bytes. length bytes ≡ b.size) (block_bytes b)
unfolding block_bytes read_block
block_bytes-length b = read b.size b.contents
  where
    read : (n : ℕ) (o : Option (List ℕ)) → Ensures (λ bytes. length bytes ≡ n) (read_block n o)
    read n none =
        if-cases (Ensures (λ bytes. length bytes ≡ n)) (n == 0) (λ e. ground arith) (λ _. tt)
    read n (some bytes) =
        if-cases (Ensures (λ bytes. length bytes ≡ n)) (leb n (length bytes))
          (λ e. omega (arith, length-take n bytes, leb→le n (length bytes) e)) (λ _. tt)

-- So the pieces put together have at most the bytes that their blocks may have.
pub assemble-length :
    (bs : List Block)
    → All (λ b. b.size ≤ max_block_request_size) bs
    → Ensures (λ bytes. length bytes ≤ length bs * max_block_request_size) (assemble bs)
unfolding assemble
assemble-length [] h = omega arith
assemble-length (b ∷ bs) h =
    Ensures-then (λ bytes. length bytes ≡ b.size)
      (λ bytes. length bytes ≤ length (b ∷ bs) * max_block_request_size) (block_bytes b) _
      (block_bytes-length b)
      λ front e.
        Ensures-then (λ bytes. length bytes ≤ length bs * max_block_request_size)
          (λ bytes. length bytes ≤ length (b ∷ bs) * max_block_request_size) (assemble bs) _
          (assemble-length bs h.1) λ back k. rw (length-append front back) (omega (arith, h.0))

module _ (P : QueuedPiece → Type 0) where
  All-erase : (i : ℕ) (qs : List QueuedPiece) → All P qs → All P (erase_queued i qs)
  unfolding erase_queued
  All-erase i [] h = tt
  All-erase i (q ∷ qs) h = if-elim (All P) (q.index == i) h.1 (h.0, All-erase i qs h.1)

  All-update :
      (i : ℕ) (r : QueuedPiece) (qs : List QueuedPiece)
      → P r
      → All P qs
      → All P (update_queued i r qs)
  unfolding update_queued
  All-update i r [] p h = tt
  All-update i r (q ∷ qs) p h =
      if-elim (All P) (q.index == i) (p, h.1) (h.0, All-update i r qs p h.1)

  pub All-find :
      (i : ℕ) (qs : List QueuedPiece) {q : QueuedPiece} → find_queued i qs ≡ some q → All P qs → P q
  unfolding find_queued
  All-find i [] e h = cc
  All-find i (r ∷ qs) {q} e h = elim (Bool-cases (r.index == i)) [
    | inl here ↦ let same : r ≡ q = cc (rw here at e) in subst P same h.0
    | inr there ↦ All-find i qs (rw there at e) h.1
  ]

All-set :
    (bs : List Block) (i : ℕ) (b : Block)
    → b.size ≤ max_block_request_size
    → All (λ x. x.size ≤ max_block_request_size) bs
    → All (λ x. x.size ≤ max_block_request_size) (set bs i b)
All-set [] i b h k = tt
All-set (x ∷ bs) zero b h k = (h, k.1)
All-set (x ∷ bs) (suc i) b h k = (k.0, All-set bs i b h k.1)

store_block-IsQueued :
    (spacing i size : ℕ) (bytes : Option (List ℕ)) (q : QueuedPiece)
    → size ≤ max_block_request_size
    → IsQueued spacing q
    → IsQueued spacing (store_block i size bytes q)
unfolding store_block
store_block-IsQueued spacing i size bytes q h k = (
  rw (length-set q.blocks i (record { size = size; contents = bytes })) k.0,
  All-set q.blocks i _ h k.1,
)

-- `piece_done` answers from the piece itself.
pub piece_done-eq :
    (t : Torrent) (i : ℕ) {b : Bool} {q : Piece}
    → piece_done t i ≡ done b
    → get_elem? t.pieces i ≡ some q
    → q.finished ≡ b
unfolding piece_done finished_flag
piece_done-eq t i {b} {q} e f = let g : done q.finished ≡ done b = rw f at e in cc

module _ (platform : Platform) (spacing : ℕ) where
  pub announce-Sound :
      (i : ℕ) (ps : List ℕ) (c : Client)
      → Sound platform spacing c
      → Ensures (Sound platform spacing) (announce i ps c)
  unfolding announce
  announce-Sound i [] c v = v
  announce-Sound i (p ∷ ps) c v =
      Ensures-then (Sound platform spacing) (Sound platform spacing) (run_peer p (send_have i) c) _
        (run_peer-Sound platform spacing p (send_have i) c (send_have-KeepsQueue i (c.peers p)) v)
        (λ d w. announce-Sound i ps d w)

  pub handle_piece_completed-Sound :
      (i : ℕ) (bytes : List ℕ) (c : Client)
      → length bytes ≤ spacing
      → piece_done c.torrent i ≡ done false
      → Sound platform spacing c
      → Ensures (Sound platform spacing) (handle_piece_completed platform i bytes c)
  unfolding handle_piece_completed count_miss
  handle_piece_completed-Sound i bytes c short new v =
      if-cases (Ensures (Sound platform spacing)) (check_piece_hash platform bytes i c.torrent)
        (λ e.
          let (q, found, hashed) = check_piece_hash_lem platform bytes i c.torrent e in
          Ensures-then (SoundTorrent platform spacing) (Sound platform spacing)
            (accept_piece i bytes c.torrent) _
            (accept_piece-SoundTorrent platform spacing i bytes c.torrent found
              (piece_done-eq c.torrent i new found) hashed short v.0)
            (λ t w. announce-Sound i t.active_peers _ (w, v.1)))
        (λ _. v)

  pub drop_piece-Sound :
      (p i : ℕ) (q : QueuedPiece) (c : Client)
      → Sound platform spacing c
      → Ensures (Sound platform spacing) (drop_piece p i q c)
  unfolding drop_piece
  drop_piece-Sound p i q c v =
      Ensures-then (Sound platform spacing) (Sound platform spacing)
        (run_peer p (send_cancel_request q c.torrent) c) _
        (run_peer-Sound platform spacing p (send_cancel_request q c.torrent) c
          (send_cancel_request-KeepsQueue platform spacing q c.torrent (c.peers p)) v)
        (λ d w.
          set_peer-Sound platform spacing p _ d
            (All-erase (IsQueued spacing) i (d.peers p).piece_queue (w.1 p)) w)

module _ (platform : Platform) (spacing : ℕ) (aligned : spacing % max_block_request_size ≡ 0) where
  pub select_unless_complete-Sound :
      (p : ℕ) (c : Client)
      → Sound platform spacing c
      → Ensures (Sound platform spacing) (select_unless_complete p c)
  unfolding select_unless_complete
  select_unless_complete-Sound p c v =
      if-elim (Ensures (Sound platform spacing)) (not (is_fully_downloaded c.torrent))
        (select_piece_and_request-Sound platform spacing aligned p c v) v

  complete_piece-Sound :
      (p i : ℕ) (q : QueuedPiece) (c : Client)
      → IsQueued spacing q
      → piece_done c.torrent i ≡ done false
      → Sound platform spacing c
      → Ensures (Sound platform spacing) (complete_piece platform p i q c)
  unfolding complete_piece
  complete_piece-Sound p i q c k new v =
      Ensures-then (λ bytes. length bytes ≤ length q.blocks * max_block_request_size)
        (Sound platform spacing) (assemble q.blocks) _ (assemble-length q.blocks k.1)
        λ bytes h.
          Ensures-then (Sound platform spacing) (Sound platform spacing)
            (handle_piece_completed platform i bytes c) _
            (handle_piece_completed-Sound platform spacing i bytes c (omega (arith, k.0)) new v)
            (λ d w. select_unless_complete-Sound p _ (
              set_peer-Sound platform spacing p _ d
                (All-erase (IsQueued spacing) i (d.peers p).piece_queue (w.1 p)) w))

  pub add_block-Sound :
      (p i block size : ℕ) (in_msg : IncomingMessage) (q : QueuedPiece) (c : Client)
      → size ≤ max_block_request_size
      → IsQueued spacing q
      → piece_done c.torrent i ≡ done false
      → Sound platform spacing c
      → Ensures (Sound platform spacing) (add_block platform p i block size in_msg q c)
  unfolding add_block
  add_block-Sound p i block size in_msg q c h k new v =
      >>=-Ensures (Sound platform spacing) (cpy_buffer size in_msg) _ λ bytes e.
        let r = store_block block size bytes q in
        let kr : IsQueued spacing r = store_block-IsQueued spacing block size bytes q h k in
        let d = modify_peer p (on_queue (update_queued i r)) c in
        let w : Sound platform spacing d =
          set_peer-Sound platform spacing p _ c
            (All-update (IsQueued spacing) i r (c.peers p).piece_queue kr (v.1 p)) v in
        if-elim (Ensures (Sound platform spacing)) (r.have_blocks == r.total_blocks)
          (complete_piece-Sound p i r d kr new w) w
