-- ===== src/Outstanding/Messages.antt =====
-- A message asks for the next read at most, and only once.
use ytorrent.Base.{
  ℕ, ◌-◌, ◌/◌, refl, List, [], ◌∷◌, Option, some, none, not, ◌||◌, if◌then◌else◌, ◌==◌, leb, ltb,
  length, Outcome, done, >>=-Ensures, if-elim,
}
use ytorrent.Utils.Transcoder.{read_as_be32}
use ytorrent.Net.Incoming.{IncomingMessage, get_size, get_buffer, extract_next_u32, cpy_buffer}
use ytorrent.Net.Link.{message_body}
use ytorrent.Client.{
  Client, QueuedPiece, Platform, max_block_request_size, modify_peer, run_peer, set_state,
  reset_state, peer_choking, peer_interested, am_choking, test_state, bad_choke, bad_unchoke,
  bad_interested, bad_not_interested, bad_have, bad_bitfield, bad_request, request_without_interest,
  request_while_choked, request_too_large, bad_cancel, bad_length_prefix, bad_piece_block,
  block_too_large, piece_not_asked_for, block_index_too_large,
}
use ytorrent.Torrent.Sizes.{piece_done}
use ytorrent.Torrent.Store.{handle_piece_completed}
use ytorrent.Torrent.Serve.{handle_block_request}
use ytorrent.Peer.MessageId
use ytorrent.Peer.Request.{request_piece, send_cancel_request}
use ytorrent.Peer.Messages.{
  on_choke, request_all, on_unchoke, answer_interest, on_interested, on_not_interested, add_index,
  on_have, add_bytes, select_unless_complete, on_bitfield, extract_three, serve, on_request,
  on_cancel,
}
use ytorrent.Peer.Blocks.{
  find_queued, assemble, store_block, on_queue, update_queued, erase_queued, complete_piece,
  add_block, drop_piece, take_block, on_piece_block,
}
use ytorrent.Peer.Dispatch.{handle_message, handle_body, handle}
use ytorrent.Outstanding.{Calm, Idle}
use ytorrent.Outstanding.Peers.{
  send_cancel_request-Quiet, answer_interest-Quiet, add_index-Quiet, run_peer-Idle, set_peer-Calm,
  read-one,
}
use ytorrent.Outstanding.Pieces.{
  Stays, Ends, stays, ends, keep_reading-Calm, handle_error-Calm, modify_peer-Idle,
  request_piece-Idle, select_unless_complete-Idle, handle_piece_completed-Idle,
  handle_block_request-Idle,
}

module _ (platform : Platform) (p : ℕ) where
  abbrev I : Client → Type 0
  I = Idle p

  abbrev S : Outcome Client → Type 0
  S = Stays platform p

  abbrev E : Outcome Client → Type 0
  E = Ends platform p

  -- A message of a wrong size ends the peer; after any other the next one is read.
  module _ (c : Client) (v : I c) where
    on_choke-Calm : (in_msg : IncomingMessage) → E (on_choke p in_msg c)
    unfolding on_choke
    on_choke-Calm in_msg =
        if-elim E (not (get_size in_msg == 0)) (handle_error-Calm platform p bad_choke c v) (
          keep_reading-Calm platform p _
            (modify_peer-Idle platform p (set_state peer_choking) c refl v))

    on_interested-Calm : (in_msg : IncomingMessage) → E (on_interested p in_msg c)
    unfolding on_interested
    on_interested-Calm in_msg =
        if-elim E (not (get_size in_msg == 0)) (handle_error-Calm platform p bad_interested c v) (
          keep_reading-Calm platform p _ (
            modify_peer-Idle platform p (λ x. answer_interest (set_state peer_interested x)) c
              (answer_interest-Quiet (set_state peer_interested (c.peers p))) v))

    on_not_interested-Calm : (in_msg : IncomingMessage) → E (on_not_interested p in_msg c)
    unfolding on_not_interested
    on_not_interested-Calm in_msg =
        if-elim E (not (get_size in_msg == 0)) (handle_error-Calm platform p bad_not_interested c v)
          (keep_reading-Calm platform p _
            (modify_peer-Idle platform p (reset_state peer_interested) c refl v))

    on_have-Calm : (in_msg : IncomingMessage) → E (on_have p in_msg c)
    unfolding on_have
    on_have-Calm in_msg =
        if-elim E (not (get_size in_msg == 4)) (handle_error-Calm platform p bad_have c v) (
          >>=-Ensures Calm (extract_next_u32 in_msg) _ λ r e.
            keep_reading-Calm platform p _
              (modify_peer-Idle platform p (add_index r.0) c (add_index-Quiet r.0 (c.peers p)) v))

    on_cancel-Calm : (in_msg : IncomingMessage) → E (on_cancel p in_msg c)
    unfolding on_cancel
    on_cancel-Calm in_msg =
        if-elim E (not (get_size in_msg == 12)) (handle_error-Calm platform p bad_cancel c v)
          (>>=-Ensures Calm (extract_three in_msg) _ λ r e. keep_reading-Calm platform p c v)

    on_bitfield-Calm : (in_msg : IncomingMessage) → E (on_bitfield p in_msg c)
    unfolding on_bitfield
    on_bitfield-Calm in_msg =
        if-elim E (ltb (get_size in_msg) 1) (handle_error-Calm platform p bad_bitfield c v) (
          >>=-Ensures Calm
            (add_bytes (get_size in_msg) 0 (get_buffer in_msg) (length c.torrent.pieces)
              (c.peers p).has_piece_indexes)
            _
            λ has e.
              let d = modify_peer p (λ x. record x { has_piece_indexes = has }) c in
              ends platform p (select_unless_complete p d) _
                (select_unless_complete-Idle platform p d (
                  modify_peer-Idle platform p (λ x. record x { has_piece_indexes = has }) c refl v))
                (λ d w. keep_reading-Calm platform p d w))

    serve-Calm : (i begin size : ℕ) → E (serve platform p (i, begin, size) c)
    unfolding serve
    serve-Calm i begin size =
        if-elim E (ltb max_block_request_size size)
          (handle_error-Calm platform p (request_too_large size) c v)
          (>>=-Ensures Calm (piece_done c.torrent i) _ λ have_it e.
            ends platform p
              (if have_it then handle_block_request platform p i begin size c else done c) _
              (if-elim S have_it (handle_block_request-Idle platform p i begin size c v) v)
              (λ d w. keep_reading-Calm platform p d w))

    on_request-Calm : (in_msg : IncomingMessage) → E (on_request platform p in_msg c)
    unfolding on_request
    on_request-Calm in_msg =
        if-elim E (not (get_size in_msg == 12)) (handle_error-Calm platform p bad_request c v) (
          if-elim E (not (test_state peer_interested (c.peers p)))
            (handle_error-Calm platform p request_without_interest c v)
            (if-elim E (test_state am_choking (c.peers p))
              (handle_error-Calm platform p request_while_choked c v)
              (>>=-Ensures Calm (extract_three in_msg) _ λ r e. serve-Calm r.0 r.1 r.2)))

    drop_piece-Idle : (i : ℕ) (q : QueuedPiece) → S (drop_piece p i q c)
    unfolding drop_piece
    drop_piece-Idle i q =
        stays platform p (run_peer p (send_cancel_request q c.torrent) c) _
          (run_peer-Idle p p (send_cancel_request q c.torrent) c
            (send_cancel_request-Quiet q c.torrent (c.peers p)) v)
          (λ d w. modify_peer-Idle platform p (on_queue (erase_queued i)) d refl w)

    complete_piece-Idle : (i : ℕ) (q : QueuedPiece) → S (complete_piece platform p i q c)
    unfolding complete_piece
    complete_piece-Idle i q = >>=-Ensures I (assemble q.blocks) _ λ bytes e.
        stays platform p (handle_piece_completed platform i bytes c) _
          (handle_piece_completed-Idle platform p i bytes c v)
          (λ d w.
            select_unless_complete-Idle platform p _
              (modify_peer-Idle platform p (on_queue (erase_queued i)) d refl w))

  request_all-Idle : (qs : List QueuedPiece) (c : Client) → I c → S (request_all p qs c)
  unfolding request_all
  request_all-Idle [] c v = v
  request_all-Idle (q ∷ qs) c v =
      stays platform p (request_piece p q.index c) _ (request_piece-Idle platform p q.index c v)
        (λ d w. request_all-Idle qs d w)

  on_unchoke-Calm : (in_msg : IncomingMessage) (c : Client) → I c → E (on_unchoke p in_msg c)
  unfolding on_unchoke
  on_unchoke-Calm in_msg c v =
      if-elim E (not (get_size in_msg == 0)) (handle_error-Calm platform p bad_unchoke c v) (
        ends platform p
          (request_all p (c.peers p).piece_queue (modify_peer p (reset_state peer_choking) c)) _
          (request_all-Idle (c.peers p).piece_queue _
            (modify_peer-Idle platform p (reset_state peer_choking) c refl v))
          (λ d w. keep_reading-Calm platform p d w))

  add_block-Idle :
      (i block size : ℕ) (in_msg : IncomingMessage) (q : QueuedPiece) (c : Client)
      → I c
      → S (add_block platform p i block size in_msg q c)
  unfolding add_block
  add_block-Idle i block size in_msg q c v = >>=-Ensures I (cpy_buffer size in_msg) _ λ bytes e.
      let r = store_block block size bytes q in
      let d = modify_peer p (on_queue (update_queued i r)) c in
      let w : I d = modify_peer-Idle platform p (on_queue (update_queued i r)) c refl v in
      if-elim S (r.have_blocks == r.total_blocks) (complete_piece-Idle d w i r) w

  take_block-Calm :
      (i begin size : ℕ) (in_msg : IncomingMessage) (o : Option QueuedPiece) (c : Client)
      → I c
      → E (take_block platform p i begin size in_msg o c)
  unfolding take_block
  take_block-Calm i begin size in_msg none c v =
      handle_error-Calm platform p (piece_not_asked_for i) c v
  take_block-Calm i begin size in_msg (some q) c v =
      let block = begin / max_block_request_size in
      if-elim E (leb q.total_blocks block) (handle_error-Calm platform p block_index_too_large c v)
        (>>=-Ensures Calm (piece_done c.torrent i) _ λ have_it e.
          ends platform p
            (if have_it then drop_piece p i q c else add_block platform p i block size in_msg q c) _
            (if-elim S have_it (drop_piece-Idle c v i q) (add_block-Idle i block size in_msg q c v))
            (λ d w. keep_reading-Calm platform p d w))

  on_piece_block-Calm :
      (in_msg : IncomingMessage) (c : Client) → I c → E (on_piece_block platform p in_msg c)
  unfolding on_piece_block
  on_piece_block-Calm in_msg c v =
      if-elim E (ltb (get_size in_msg) 9) (handle_error-Calm platform p bad_piece_block c v) (
        >>=-Ensures Calm (extract_next_u32 in_msg) _ λ r1 e1.
          >>=-Ensures Calm (extract_next_u32 r1.1) _ λ r2 e2.
            let size = get_size in_msg - 8 in
            if-elim E (size == 0 || ltb max_block_request_size size)
              (handle_error-Calm platform p (block_too_large size) c v)
              (take_block-Calm r1.0 r2.0 size r2.1 (find_queued r1.0 (c.peers p).piece_queue) c v))

  handle_message-Calm :
      (id : ℕ) (in_msg : IncomingMessage) (c : Client)
      → I c
      → E (handle_message platform p id in_msg c)
  unfolding handle_message
  handle_message-Calm id in_msg c v = if-elim E (id == MessageId.choke) (on_choke-Calm c v in_msg) (
      if-elim E (id == MessageId.unchoke) (on_unchoke-Calm in_msg c v) (
        if-elim E (id == MessageId.interested) (on_interested-Calm c v in_msg) (
          if-elim E (id == MessageId.not_interested) (on_not_interested-Calm c v in_msg) (
            if-elim E (id == MessageId.have) (on_have-Calm c v in_msg) (
              if-elim E (id == MessageId.bitfield) (on_bitfield-Calm c v in_msg) (
                if-elim E (id == MessageId.request) (on_request-Calm c v in_msg) (
                  if-elim E (id == MessageId.piece_block) (on_piece_block-Calm in_msg c v) (
                    if-elim E (id == MessageId.cancel) (on_cancel-Calm c v in_msg)
                      (keep_reading-Calm platform p c v)))))))))

  pub handle_body-Calm :
      (bytes : List ℕ) (size : ℕ) (c : Client) → I c → E (handle_body platform p bytes size c)
  unfolding handle_body
  handle_body-Calm [] size c v = tt
  handle_body-Calm (id ∷ bytes) size c v = handle_message-Calm id _ c v

  pub handle-Calm : (bytes : List ℕ) (size : ℕ) (c : Client) → I c → E (handle p bytes size c)
  unfolding handle
  handle-Calm bytes size c v =
      if-elim E (not (size == 4)) (handle_error-Calm platform p bad_length_prefix c v) (
        >>=-Ensures Calm (read_as_be32 bytes) _ λ n e.
          if-elim E (n == 0) (keep_reading-Calm platform p c v)
            (set_peer-Calm p _ c (read-one n message_body (c.peers p).conn v.1) v.0))
