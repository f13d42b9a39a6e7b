-- ===== src/Machine/Messages.antt =====
-- Every message of a peer makes moves of the abstract machine.
use ytorrent.Base.{
  ℕ, ◌-◌, ◌/◌, ◌≡◌, ap, ◌∙◌, List, [], ◌∷◌, Option, some, none, false, not, ◌||◌, if◌then◌else◌,
  ◌==◌, leb, ltb, length, Outcome, done, >>=-Ensures, if-elim, if-cases,
}
use ytorrent.Utils.Transcoder.{read_as_be32}
use ytorrent.Net.Incoming.{IncomingMessage, get_size, get_buffer, extract_next_u32, cpy_buffer}
use ytorrent.Client.{
  Client, Torrent, QueuedPiece, Platform, max_block_request_size, modify_peer, run_peer,
  reset_state, peer_choking, peer_interested, am_choking, test_state, bad_choke, bad_unchoke,
  bad_interested, bad_not_interested, bad_have, bad_bitfield, bad_request, request_without_interest,
  request_while_choked, request_too_large, bad_cancel, bad_length_prefix, bad_piece_block,
  block_too_large, piece_not_asked_for, block_index_too_large,
}
use ytorrent.Torrent.Sizes.{piece_done}
use ytorrent.Torrent.Store.{handle_piece_completed}
use ytorrent.Torrent.Serve.{handle_block_request}
use ytorrent.Peer.MessageId
use ytorrent.Peer.Request.{request_piece, send_cancel_request}
use ytorrent.Peer.Messages.{
  on_choke, request_all, on_unchoke, on_interested, on_not_interested, on_have, add_bytes,
  select_unless_complete, on_bitfield, extract_three, serve, on_request, on_cancel,
}
use ytorrent.Peer.Blocks.{
  find_queued, assemble, store_block, on_queue, update_queued, complete_piece, add_block,
  drop_piece, take_block, on_piece_block,
}
use ytorrent.Peer.Dispatch.{handle_message, handle_body, handle}
use ytorrent.Machine.Pieces.{
  Moved, Keeps, run_peer-Moved, then_keep, handle_error-Moved, keep_reading-Moved,
  request_piece-Moved, select_unless_complete-Moved, handle_piece_completed-Moved,
  handle_block_request-Moved,
}

module _ (platform : Platform) (start : Torrent) where
  abbrev M : Client → Type 0
  M = Moved platform start

  abbrev K : Outcome Client → Type 0
  K = Keeps platform start

  -- A message of a wrong size ends the peer; any other is dealt with.
  module _ (p : ℕ) (c : Client) (v : M c) where
    on_choke-Moved : (in_msg : IncomingMessage) → K (on_choke p in_msg c)
    unfolding on_choke
    on_choke-Moved in_msg =
        if-elim K (not (get_size in_msg == 0)) (handle_error-Moved platform start p bad_choke c v)
          (keep_reading-Moved platform start p _ v)

    on_interested-Moved : (in_msg : IncomingMessage) → K (on_interested p in_msg c)
    unfolding on_interested
    on_interested-Moved in_msg =
        if-elim K (not (get_size in_msg == 0))
          (handle_error-Moved platform start p bad_interested c v)
          (keep_reading-Moved platform start p _ v)

    on_not_interested-Moved : (in_msg : IncomingMessage) → K (on_not_interested p in_msg c)
    unfolding on_not_interested
    on_not_interested-Moved in_msg =
        if-elim K (not (get_size in_msg == 0))
          (handle_error-Moved platform start p bad_not_interested c v)
          (keep_reading-Moved platform start p _ v)

    on_have-Moved : (in_msg : IncomingMessage) → K (on_have p in_msg c)
    unfolding on_have
    on_have-Moved in_msg =
        if-elim K (not (get_size in_msg == 4)) (handle_error-Moved platform start p bad_have c v)
          (>>=-Ensures M (extract_next_u32 in_msg) _ λ r e. keep_reading-Moved platform start p _ v)

    on_cancel-Moved : (in_msg : IncomingMessage) → K (on_cancel p in_msg c)
    unfolding on_cancel
    on_cancel-Moved in_msg =
        if-elim K (not (get_size in_msg == 12)) (handle_error-Moved platform start p bad_cancel c v)
          (>>=-Ensures M (extract_three in_msg) _ λ r e. keep_reading-Moved platform start p c v)

    on_bitfield-Moved : (in_msg : IncomingMessage) → K (on_bitfield p in_msg c)
    unfolding on_bitfield
    on_bitfield-Moved in_msg =
        if-elim K (ltb (get_size in_msg) 1) (handle_error-Moved platform start p bad_bitfield c v) (
          >>=-Ensures M
            (add_bytes (get_size in_msg) 0 (get_buffer in_msg) (length c.torrent.pieces)
              (c.peers p).has_piece_indexes)
            _
            λ has e.
              then_keep platform start (select_unless_complete p _) _
                (select_unless_complete-Moved platform start p _ v)
                (λ d w. keep_reading-Moved platform start p d w))

    serve-Moved : (i begin size : ℕ) → K (serve platform p (i, begin, size) c)
    unfolding serve
    serve-Moved i begin size =
        if-elim K (ltb max_block_request_size size)
          (handle_error-Moved platform start p (request_too_large size) c v)
          (>>=-Ensures M (piece_done c.torrent i) _ λ have_it e.
            then_keep platform start
              (if have_it then handle_block_request platform p i begin size c else done c) _
              (if-elim K have_it (handle_block_request-Moved platform start p i begin size c v) v)
              (λ d w. keep_reading-Moved platform start p d w))

    on_request-Moved : (in_msg : IncomingMessage) → K (on_request platform p in_msg c)
    unfolding on_request
    on_request-Moved in_msg =
        if-elim K (not (get_size in_msg == 12))
          (handle_error-Moved platform start p bad_request c v)
          (if-elim K (not (test_state peer_interested (c.peers p)))
            (handle_error-Moved platform start p request_without_interest c v)
            (if-elim K (test_state am_choking (c.peers p))
              (handle_error-Moved platform start p request_while_choked c v)
              (>>=-Ensures M (extract_three in_msg) _ λ r e. serve-Moved r.0 r.1 r.2)))

    drop_piece-Moved : (i : ℕ) (q : QueuedPiece) → K (drop_piece p i q c)
    unfolding drop_piece
    drop_piece-Moved i q =
        then_keep platform start (run_peer p (send_cancel_request q c.torrent) c) _
          (run_peer-Moved platform start p (send_cancel_request q c.torrent) c v) (λ d w. w)

    complete_piece-Moved :
        (i : ℕ) (q : QueuedPiece)
        → piece_done c.torrent i ≡ done false
        → K (complete_piece platform p i q c)
    unfolding complete_piece
    complete_piece-Moved i q new = >>=-Ensures M (assemble q.blocks) _ λ bytes e.
        then_keep platform start (handle_piece_completed platform i bytes c) _
          (handle_piece_completed-Moved platform start i bytes c new v)
          (λ d w. select_unless_complete-Moved platform start p _ w)

  request_all-Moved : (p : ℕ) (qs : List QueuedPiece) (c : Client) → M c → K (request_all p qs c)
  unfolding request_all
  request_all-Moved p [] c v = v
  request_all-Moved p (q ∷ qs) c v =
      then_keep platform start (request_piece p q.index c) _
        (request_piece-Moved platform start p q.index c v) (λ d w. request_all-Moved p qs d w)

  on_unchoke-Moved :
      (p : ℕ) (in_msg : IncomingMessage) (c : Client) → M c → K (on_unchoke p in_msg c)
  unfolding on_unchoke
  on_unchoke-Moved p in_msg c v =
      if-elim K (not (get_size in_msg == 0)) (handle_error-Moved platform start p bad_unchoke c v) (
        then_keep platform start
          (request_all p (c.peers p).piece_queue (modify_peer p (reset_state peer_choking) c)) _
          (request_all-Moved p (c.peers p).piece_queue _ v)
          (λ d w. keep_reading-Moved platform start p d w))

  add_block-Moved :
      (p i block size : ℕ) (in_msg : IncomingMessage) (q : QueuedPiece) (c : Client)
      → piece_done c.torrent i ≡ done false
      → M c
      → K (add_block platform p i block size in_msg q c)
  unfolding add_block
  add_block-Moved p i block size in_msg q c new v =
      >>=-Ensures M (cpy_buffer size in_msg) _ λ bytes e.
        let r = store_block block size bytes q in
        let d = modify_peer p (on_queue (update_queued i r)) c in
        if-elim K (r.have_blocks == r.total_blocks) (complete_piece-Moved p d v i r new) v

  take_block-Moved :
      (p i begin size : ℕ) (in_msg : IncomingMessage) (o : Option QueuedPiece) (c : Client)
      → M c
      → K (take_block platform p i begin size in_msg o c)
  unfolding take_block
  take_block-Moved p i begin size in_msg none c v =
      handle_error-Moved platform start p (piece_not_asked_for i) c v
  take_block-Moved p i begin size in_msg (some q) c v =
      let block = begin / max_block_request_size in
      if-elim K (leb q.total_blocks block)
        (handle_error-Moved platform start p block_index_too_large c v)
        (>>=-Ensures M (piece_done c.torrent i) _ λ have_it e.
          then_keep platform start
            (if have_it then drop_piece p i q c else add_block platform p i block size in_msg q c) _
            (if-cases K have_it (λ _. drop_piece-Moved p c v i q)
              (λ new. add_block-Moved p i block size in_msg q c (e ∙ ap done new) v))
            (λ d w. keep_reading-Moved platform start p d w))

  on_piece_block-Moved :
      (p : ℕ) (in_msg : IncomingMessage) (c : Client) → M c → K (on_piece_block platform p in_msg c)
  unfolding on_piece_block
  on_piece_block-Moved p in_msg c v =
      if-elim K (ltb (get_size in_msg) 9) (handle_error-Moved platform start p bad_piece_block c v)
        (>>=-Ensures M (extract_next_u32 in_msg) _ λ r1 e1.
          >>=-Ensures M (extract_next_u32 r1.1) _ λ r2 e2.
            let size = get_size in_msg - 8 in
            if-elim K (size == 0 || ltb max_block_request_size size)
              (handle_error-Moved platform start p (block_too_large size) c v)
              (take_block-Moved p r1.0 r2.0 size r2.1 (find_queued r1.0 (c.peers p).piece_queue) c
                v))

  handle_message-Moved :
      (p id : ℕ) (in_msg : IncomingMessage) (c : Client)
      → M c
      → K (handle_message platform p id in_msg c)
  unfolding handle_message
  handle_message-Moved p id in_msg c v =
      if-elim K (id == MessageId.choke) (on_choke-Moved p c v in_msg) (
        if-elim K (id == MessageId.unchoke) (on_unchoke-Moved p in_msg c v) (
          if-elim K (id == MessageId.interested) (on_interested-Moved p c v in_msg) (
            if-elim K (id == MessageId.not_interested) (on_not_interested-Moved p c v in_msg) (
              if-elim K (id == MessageId.have) (on_have-Moved p c v in_msg) (
                if-elim K (id == MessageId.bitfield) (on_bitfield-Moved p c v in_msg) (
                  if-elim K (id == MessageId.request) (on_request-Moved p c v in_msg) (
                    if-elim K (id == MessageId.piece_block) (on_piece_block-Moved p in_msg c v) (
                      if-elim K (id == MessageId.cancel) (on_cancel-Moved p c v in_msg)
                        (keep_reading-Moved platform start p c v)))))))))

  pub handle_body-Moved :
      (p : ℕ) (bytes : List ℕ) (size : ℕ) (c : Client)
      → M c
      → K (handle_body platform p bytes size c)
  unfolding handle_body
  handle_body-Moved p [] size c v = tt
  handle_body-Moved p (id ∷ bytes) size c v = handle_message-Moved p id _ c v

  pub handle-Moved :
      (p : ℕ) (bytes : List ℕ) (size : ℕ) (c : Client) → M c → K (handle p bytes size c)
  unfolding handle
  handle-Moved p bytes size c v =
      if-elim K (not (size == 4)) (handle_error-Moved platform start p bad_length_prefix c v) (
        >>=-Ensures M (read_as_be32 bytes) _
          λ n e. if-elim K (n == 0) (keep_reading-Moved platform start p c v) v)
