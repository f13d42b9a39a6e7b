-- ===== src/Soundness/Handlers.antt =====
-- Every message keeps the client sound.
use ytorrent.Base.{
  ℕ, ◌-◌, ◌/◌, ◌%◌, ◌≤◌, ◌≡◌, refl, ap, ◌∙◌, List, [], ◌∷◌, Option, some, none, false, not, ◌||◌,
  if◌then◌else◌, ◌==◌, leb, ltb, length, arith, Outcome, done, Ensures, Ensures-then, >>=-Ensures,
  if-elim, if-cases,
}
use ytorrent.Utils.Transcoder.{read_as_be32}
use ytorrent.Net.Incoming.{IncomingMessage, get_size, get_buffer, extract_next_u32}
use ytorrent.Client.{
  Client, Peer, QueuedPiece, Platform, max_block_request_size, modify_peer, peer_choking,
  peer_interested, am_choking, reset_state, set_state, test_state, bad_piece_block, block_too_large,
  bad_request, request_without_interest, request_while_choked, request_too_large, bad_choke,
  bad_unchoke, bad_interested, bad_not_interested, bad_have, bad_bitfield, bad_cancel, has_piece,
  on_conn, bad_length_prefix, piece_not_asked_for, block_index_too_large,
}
use ytorrent.Torrent.Sizes.{piece_done}
use ytorrent.Torrent.Serve.{handle_block_request}
use ytorrent.Net.Link.{read, message_body}
use ytorrent.Peer.MessageId
use ytorrent.Peer.Request.{request_piece}
use ytorrent.Peer.Messages.{
  keep_reading, on_choke, request_all, on_unchoke, answer_interest, on_interested,
  on_not_interested, add_index, on_have, add_bytes, select_unless_complete, on_bitfield,
  extract_three, serve, on_request, on_cancel,
}
use ytorrent.Peer.Blocks.{find_queued, drop_piece, add_block, take_block, on_piece_block}
use ytorrent.Peer.Dispatch.{handle_message, handle_body, handle}
use ytorrent.Soundness.{IsQueued, Sound}
use ytorrent.Soundness.Peers.{
  KeepsQueue, SoundPeer-keeps, set_peer-Sound, request_piece-Sound, handle_error-Sound,
}
use ytorrent.Soundness.Serving.{handle_block_request-Sound}
use ytorrent.Soundness.Completion.{
  select_unless_complete-Sound, add_block-Sound, drop_piece-Sound, All-find,
}

answer_interest-KeepsQueue : (x : Peer) → KeepsQueue x (answer_interest x)
unfolding answer_interest
answer_interest-KeepsQueue x = if-elim (KeepsQueue x) (test_state am_choking x) refl refl

add_index-KeepsQueue : (i : ℕ) (x : Peer) → KeepsQueue x (add_index i x)
unfolding add_index
add_index-KeepsQueue i x = if-elim (KeepsQueue x) (has_piece x.has_piece_indexes i) refl refl

module _ (platform : Platform) (spacing : ℕ) where
  abbrev Keeps : Outcome Client → Type 0
  Keeps = Ensures (Sound platform spacing)

  pub keep_reading-Sound :
      (p : ℕ) (c : Client) → Sound platform spacing c → Sound platform spacing (keep_reading p c)
  unfolding keep_reading
  keep_reading-Sound p c v = set_peer-Sound platform spacing p _ c (v.1 p) v

  -- A change of the peer that leaves its queue.
  pub modify_peer-Sound :
      (p : ℕ) (f : Peer → Peer) (c : Client)
      → KeepsQueue (c.peers p) (f (c.peers p))
      → Sound platform spacing c
      → Sound platform spacing (modify_peer p f c)
  modify_peer-Sound p f c k v =
      set_peer-Sound platform spacing p (f (c.peers p)) c
        (SoundPeer-keeps platform spacing (c.peers p) (f (c.peers p)) k (v.1 p)) v

  module _ (p : ℕ) (in_msg : IncomingMessage) (c : Client) (v : Sound platform spacing c) where
    on_choke-Sound : Keeps (on_choke p in_msg c)
    unfolding on_choke
    on_choke-Sound =
        if-elim Keeps (not (get_size in_msg == 0))
          (handle_error-Sound platform spacing p bad_choke c v)
          (keep_reading-Sound p _ (modify_peer-Sound p (set_state peer_choking) c refl v))

    on_interested-Sound : Keeps (on_interested p in_msg c)
    unfolding on_interested
    on_interested-Sound =
        if-elim Keeps (not (get_size in_msg == 0))
          (handle_error-Sound platform spacing p bad_interested c v)
          (keep_reading-Sound p _ (
            modify_peer-Sound p (λ x. answer_interest (set_state peer_interested x)) c
              (answer_interest-KeepsQueue (set_state peer_interested (c.peers p))) v))

    on_not_interested-Sound : Keeps (on_not_interested p in_msg c)
    unfolding on_not_interested
    on_not_interested-Sound =
        if-elim Keeps (not (get_size in_msg == 0))
          (handle_error-Sound platform spacing p bad_not_interested c v)
          (keep_reading-Sound p _ (modify_peer-Sound p (reset_state peer_interested) c refl v))

    on_have-Sound : Keeps (on_have p in_msg c)
    unfolding on_have
    on_have-Sound =
        if-elim Keeps (not (get_size in_msg == 4))
          (handle_error-Sound platform spacing p bad_have c v)
          (>>=-Ensures (Sound platform spacing) (extract_next_u32 in_msg) _ λ r e.
            keep_reading-Sound p _
              (modify_peer-Sound p (add_index r.0) c (add_index-KeepsQueue r.0 (c.peers p)) v))

    on_cancel-Sound : Keeps (on_cancel p in_msg c)
    unfolding on_cancel
    on_cancel-Sound =
        if-elim Keeps (not (get_size in_msg == 12))
          (handle_error-Sound platform spacing p bad_cancel c v)
          (>>=-Ensures (Sound platform spacing) (extract_three in_msg) _
            λ r e. keep_reading-Sound p c v)

  request_all-Sound :
      (p : ℕ) (qs : List QueuedPiece) (c : Client)
      → Sound platform spacing c
      → Keeps (request_all p qs c)
  unfolding request_all
  request_all-Sound p [] c v = v
  request_all-Sound p (q ∷ qs) c v =
      Ensures-then (Sound platform spacing) (Sound platform spacing) (request_piece p q.index c) _
        (request_piece-Sound platform spacing p q.index c v) (λ d w. request_all-Sound p qs d w)

  on_unchoke-Sound :
      (p : ℕ) (in_msg : IncomingMessage) (c : Client)
      → Sound platform spacing c
      → Keeps (on_unchoke p in_msg c)
  unfolding on_unchoke
  on_unchoke-Sound p in_msg c v =
      if-elim Keeps (not (get_size in_msg == 0))
        (handle_error-Sound platform spacing p bad_unchoke c v)
        (Ensures-then (Sound platform spacing) (Sound platform spacing)
          (request_all p (c.peers p).piece_queue (modify_peer p (reset_state peer_choking) c)) _
          (request_all-Sound p (c.peers p).piece_queue _
            (modify_peer-Sound p (reset_state peer_choking) c refl v))
          (λ d w. keep_reading-Sound p d w))

  serve-Sound :
      (p index begin size : ℕ) (c : Client)
      → Sound platform spacing c
      → Keeps (serve platform p (index, begin, size) c)
  unfolding serve
  serve-Sound p index begin size c v =
      if-elim Keeps (ltb max_block_request_size size)
        (handle_error-Sound platform spacing p (request_too_large size) c v)
        (>>=-Ensures (Sound platform spacing) (piece_done c.torrent index) _ λ have_it e.
          Ensures-then (Sound platform spacing) (Sound platform spacing)
            (if have_it then handle_block_request platform p index begin size c else done c) _
            (if-elim Keeps have_it
              (handle_block_request-Sound platform spacing p index begin size c v) v)
            (λ d w. keep_reading-Sound p d w))

  on_request-Sound :
      (p : ℕ) (in_msg : IncomingMessage) (c : Client)
      → Sound platform spacing c
      → Keeps (on_request platform p in_msg c)
  unfolding on_request
  on_request-Sound p in_msg c v =
      if-elim Keeps (not (get_size in_msg == 12))
        (handle_error-Sound platform spacing p bad_request c v)
        (if-elim Keeps (not (test_state peer_interested (c.peers p)))
          (handle_error-Sound platform spacing p request_without_interest c v)
          (if-elim Keeps (test_state am_choking (c.peers p))
            (handle_error-Sound platform spacing p request_while_choked c v)
            (>>=-Ensures (Sound platform spacing) (extract_three in_msg) _
              λ r e. serve-Sound p r.0 r.1 r.2 c v)))

module _ (platform : Platform) (spacing : ℕ) (aligned : spacing % max_block_request_size ≡ 0) where
  on_bitfield-Sound :
      (p : ℕ) (in_msg : IncomingMessage) (c : Client)
      → Sound platform spacing c
      → Ensures (Sound platform spacing) (on_bitfield p in_msg c)
  unfolding on_bitfield
  on_bitfield-Sound p in_msg c v =
      if-elim (Ensures (Sound platform spacing)) (ltb (get_size in_msg) 1)
        (handle_error-Sound platform spacing p bad_bitfield c v)
        (>>=-Ensures (Sound platform spacing)
          (add_bytes (get_size in_msg) 0 (get_buffer in_msg) (length c.torrent.pieces)
            (c.peers p).has_piece_indexes)
          _
          λ has e.
            let d = modify_peer p (λ x. record x { has_piece_indexes = has }) c in
            Ensures-then (Sound platform spacing) (Sound platform spacing)
              (select_unless_complete p d) _
              (select_unless_complete-Sound platform spacing aligned p d (
                modify_peer-Sound platform spacing p (λ x. record x { has_piece_indexes = has }) c
                  refl v))
              (λ d w. keep_reading-Sound platform spacing p d w))

  take_block-Sound :
      (p index begin size : ℕ) (in_msg : IncomingMessage) (o : Option QueuedPiece) (c : Client)
      → size ≤ max_block_request_size
      → ((q : QueuedPiece) → o ≡ some q → IsQueued spacing q)
      → Sound platform spacing c
      → Ensures (Sound platform spacing) (take_block platform p index begin size in_msg o c)
  unfolding take_block
  take_block-Sound p index begin size in_msg none c h k v =
      handle_error-Sound platform spacing p (piece_not_asked_for index) c v
  take_block-Sound p index begin size in_msg (some q) c h k v =
      let block = begin / max_block_request_size in
      if-elim (Ensures (Sound platform spacing)) (leb q.total_blocks block)
        (handle_error-Sound platform spacing p block_index_too_large c v)
        (>>=-Ensures (Sound platform spacing) (piece_done c.torrent index) _ λ have_it e.
          Ensures-then (Sound platform spacing) (Sound platform spacing)
            (if have_it
              then drop_piece p index q c
              else add_block platform p index block size in_msg q c)
            _
            (if-cases (Ensures (Sound platform spacing)) have_it
              (λ _. drop_piece-Sound platform spacing p index q c v)
              (λ new.
                add_block-Sound platform spacing aligned p index block size in_msg q c h (k q refl)
                  (e ∙ ap done new) v))
            (λ d w. keep_reading-Sound platform spacing p d w))

  within_block :
      (size : ℕ)
      → (size == 0 || ltb max_block_request_size size) ≡ false
      → size ≤ max_block_request_size
  within_block size e = ground arith

  on_piece_block-Sound :
      (p : ℕ) (in_msg : IncomingMessage) (c : Client)
      → Sound platform spacing c
      → Ensures (Sound platform spacing) (on_piece_block platform p in_msg c)
  unfolding on_piece_block
  on_piece_block-Sound p in_msg c v =
      if-elim (Ensures (Sound platform spacing)) (ltb (get_size in_msg) 9)
        (handle_error-Sound platform spacing p bad_piece_block c v)
        (>>=-Ensures (Sound platform spacing) (extract_next_u32 in_msg) _ λ r1 e1.
          >>=-Ensures (Sound platform spacing) (extract_next_u32 r1.1) _ λ r2 e2.
            let size = get_size in_msg - 8 in
            if-cases (Ensures (Sound platform spacing))
              (size == 0 || ltb max_block_request_size size)
              (λ _. handle_error-Sound platform spacing p (block_too_large size) c v)
              (λ fits.
                take_block-Sound p r1.0 r2.0 size r2.1 (find_queued r1.0 (c.peers p).piece_queue) c
                  (within_block size fits)
                  (λ q found.
                    All-find (IsQueued spacing) r1.0 (c.peers p).piece_queue found (v.1 p))
                  v))

  -- Whatever message a peer sends, the client is sound after it.
  pub handle_message-Sound :
      (p id : ℕ) (in_msg : IncomingMessage) (c : Client)
      → Sound platform spacing c
      → Ensures (Sound platform spacing) (handle_message platform p id in_msg c)
  unfolding handle_message
  handle_message-Sound p id in_msg c v =
      let K = Ensures (Sound platform spacing) in
      if-elim K (id == MessageId.choke) (on_choke-Sound platform spacing p in_msg c v) (
        if-elim K (id == MessageId.unchoke) (on_unchoke-Sound platform spacing p in_msg c v) (
          if-elim K (id == MessageId.interested) (on_interested-Sound platform spacing p in_msg c v)
            (if-elim K (id == MessageId.not_interested)
              (on_not_interested-Sound platform spacing p in_msg c v)
              (if-elim K (id == MessageId.have) (on_have-Sound platform spacing p in_msg c v) (
                if-elim K (id == MessageId.bitfield) (on_bitfield-Sound p in_msg c v) (
                  if-elim K (id == MessageId.request)
                    (on_request-Sound platform spacing p in_msg c v)
                    (if-elim K (id == MessageId.piece_block) (on_piece_block-Sound p in_msg c v) (
                      if-elim K (id == MessageId.cancel)
                        (on_cancel-Sound platform spacing p in_msg c v)
                        (keep_reading-Sound platform spacing p c v)))))))))

  pub handle_body-Sound :
      (p : ℕ) (bytes : List ℕ) (size : ℕ) (c : Client)
      → Sound platform spacing c
      → Ensures (Sound platform spacing) (handle_body platform p bytes size c)
  unfolding handle_body
  handle_body-Sound p [] size c v = tt
  handle_body-Sound p (id ∷ bytes) size c v = handle_message-Sound p id _ c v

  pub handle-Sound :
      (p : ℕ) (bytes : List ℕ) (size : ℕ) (c : Client)
      → Sound platform spacing c
      → Ensures (Sound platform spacing) (handle p bytes size c)
  unfolding handle
  handle-Sound p bytes size c v =
      if-elim (Ensures (Sound platform spacing)) (not (size == 4))
        (handle_error-Sound platform spacing p bad_length_prefix c v)
        (>>=-Ensures (Sound platform spacing) (read_as_be32 bytes) _ λ n e.
          if-elim (Ensures (Sound platform spacing)) (n == 0)
            (keep_reading-Sound platform spacing p c v)
            (modify_peer-Sound platform spacing p (on_conn (read n message_body)) c refl v))
