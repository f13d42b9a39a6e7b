-- ===== src/Outstanding/Pieces.antt =====
-- Pieces that are asked for, completed or served ask for nothing to be read.
use ytorrent.Base.{
  ℕ, ◌+◌, ◌%◌, ◌*◌, ◌^◌, refl, List, [], ◌∷◌, Option, some, none, not, ◌==◌, leb, ltb, length,
  Outcome, done, ◌>>=◌, Ensures, Ensures-then, >>=-Ensures, if-elim,
}
use ytorrent.Net.Link.{message_length}
use ytorrent.Client.{
  Client, Peer, Stream, Platform, PeerError, int32_max, modify_peer, run_peer, on_torrent,
  peer_choking, test_state, remotely_choked,
}
use ytorrent.Torrent.Sizes.{piece_size, check_piece_hash, is_fully_downloaded}
use ytorrent.Torrent.Disk.{fread}
use ytorrent.Torrent.Swarm.{disconnect, handle_error}
use ytorrent.Torrent.Select.{
  Selection, unrequested, least, select_loop, act_on, select_piece_and_request,
}
use ytorrent.Torrent.Store.{accept_piece, announce, handle_piece_completed, file_offset}
use ytorrent.Torrent.Serve.{
  seek_unchecked, open_file, put_stream, filled, send_bytes, send_from, handle_block_request,
}
use ytorrent.Peer.Send.{send_have, send_interested, send_request, send_piece_block}
use ytorrent.Peer.Request.{each_block, request_piece, send_piece_request, new_queued_piece, enqueue}
use ytorrent.Peer.Messages.{keep_reading, select_unless_complete}
use ytorrent.Outstanding.{Calm, Idle}
use ytorrent.Outstanding.Peers.{
  Quiet, send_interested-Quiet, send_have-Quiet, send_piece_block-Quiet, request_blocks-Quiet,
  disconnect_peer-Quiet, set_peer-Calm, set_peer-Idle, run_peer-Idle, handle_error-Idle, read-one,
}

-- `p` is the peer whose message is handled.
module _ (platform : Platform) (p : ℕ) where
  abbrev I : Client → Type 0
  I = Idle p

  abbrev pub Stays : Outcome Client → Type 0
  Stays = Ensures (Idle p)

  abbrev pub Ends : Outcome Client → Type 0
  Ends = Ensures Calm

  pub stays :
      (m : Outcome Client) (f : Client → Outcome Client)
      → Stays m
      → ((d : Client) → I d → Stays (f d))
      → Stays (m >>= f)
  stays m f v h = Ensures-then I I m f v h

  pub ends :
      (m : Outcome Client) (f : Client → Outcome Client)
      → Stays m
      → ((d : Client) → I d → Ends (f d))
      → Ends (m >>= f)
  ends m f v h = Ensures-then I Calm m f v h

  pub keep_reading-Calm : (c : Client) → I c → Calm (keep_reading p c)
  unfolding keep_reading
  keep_reading-Calm c v = set_peer-Calm p _ c (read-one 4 message_length (c.peers p).conn v.1) v.0

  pub handle_error-Calm : (e : PeerError) (c : Client) → I c → Calm (handle_error p e c)
  handle_error-Calm e c v = (handle_error-Idle p p e c v).0

  disconnect-Idle : (c : Client) → I c → I (disconnect p c)
  unfolding disconnect
  disconnect-Idle c v = set_peer-Idle p p _ c (disconnect_peer-Quiet (c.peers p)) v

  pub modify_peer-Idle :
      (f : Peer → Peer) (c : Client)
      → Quiet (c.peers p) (f (c.peers p))
      → I c
      → I (modify_peer p f c)
  modify_peer-Idle f c k v = set_peer-Idle p p (f (c.peers p)) c k v

  pub request_piece-Idle : (i : ℕ) (c : Client) → I c → Stays (request_piece p i c)
  unfolding request_piece
  request_piece-Idle i c v =
      if-elim Stays (test_state peer_choking (c.peers p))
        (handle_error-Idle p p remotely_choked c v)
        (>>=-Ensures I (piece_size c.torrent i) _ λ size e.
          run_peer-Idle p p (each_block (send_request i) size) c
            (request_blocks-Quiet i size (c.peers p)) v)

  send_piece_request-Idle : (i : ℕ) (c : Client) → I c → Stays (send_piece_request p i c)
  unfolding send_piece_request
  send_piece_request-Idle i c v = >>=-Ensures I (piece_size c.torrent (i % 2 ^ 32)) _ λ size e.
      let c' = modify_peer p send_interested c in
      let q = new_queued_piece (i % 2 ^ 32) (size % 2 ^ 32) in
      let d = modify_peer p (enqueue q) c' in
      let w' : I c' = modify_peer-Idle send_interested c (send_interested-Quiet (c.peers p)) v in
      let w : I d = modify_peer-Idle (enqueue q) c' refl w' in
      let kept : Stays (done d) = w in
      if-elim Stays (test_state peer_choking (d.peers p)) kept (request_piece-Idle (i % 2 ^ 32) d w)

  act_on-Idle : (s : Selection) (c : Client) → I c → Stays (act_on p s c)
  unfolding act_on
  act_on-Idle (unrequested i) c v = send_piece_request-Idle i _ v
  act_on-Idle (least i priority) c v =
      if-elim Stays (priority == int32_max) v (send_piece_request-Idle i _ v)

  pub select_unless_complete-Idle : (c : Client) → I c → Stays (select_unless_complete p c)
  unfolding select_unless_complete select_piece_and_request
  select_unless_complete-Idle c v =
      if-elim Stays (not (is_fully_downloaded c.torrent))
        (act_on-Idle (select_loop (c.peers p).has_piece_indexes c.torrent.pieces 0 0 int32_max) c v)
        v

  announce-Idle : (i : ℕ) (ps : List ℕ) (c : Client) → I c → Stays (announce i ps c)
  unfolding announce
  announce-Idle i [] c v = v
  announce-Idle i (q ∷ qs) c v =
      stays (run_peer q (send_have i) c) _
        (run_peer-Idle p q (send_have i) c (send_have-Quiet i (c.peers q)) v)
        (λ d w. announce-Idle i qs d w)

  pub handle_piece_completed-Idle :
      (i : ℕ) (bytes : List ℕ) (c : Client)
      → I c
      → Stays (handle_piece_completed platform i bytes c)
  unfolding handle_piece_completed
  handle_piece_completed-Idle i bytes c v =
      if-elim Stays (check_piece_hash platform bytes i c.torrent)
        (>>=-Ensures I (accept_piece i bytes c.torrent) _
          λ t e. announce-Idle i t.active_peers (record c { torrent = t }) v)
        v

  send_bytes-Idle :
      (i begin size : ℕ) (bytes : List ℕ) (s : Stream) (c : Client)
      → I c
      → Stays (send_bytes platform p i begin size (bytes, s) c)
  unfolding send_bytes
  send_bytes-Idle i begin size bytes s c v =
      let block = send_piece_block i begin (filled platform size bytes) size in
      if-elim Stays (length bytes == 0) v (
        stays (run_peer p block (on_torrent (put_stream s) c)) _
          (run_peer-Idle p p block (on_torrent (put_stream s) c)
            (send_piece_block-Quiet i begin (filled platform size bytes) size (c.peers p)) v)
          (λ d w. w))

  send_from-Idle :
      (i begin size : ℕ) (o : Option Stream) (c : Client)
      → I c
      → Stays (send_from platform p i begin size o c)
  unfolding send_from
  send_from-Idle i begin size none c v = v
  send_from-Idle i begin size (some s) c v =
      let offset =
        file_offset ((begin + i * c.torrent.piece_length % 2 ^ 64) % 2 ^ 64) c.torrent.file in
      let read = fread size (seek_unchecked offset s) in
      send_bytes-Idle i begin size read.0 read.1 c v

  pub handle_block_request-Idle :
      (i begin size : ℕ) (c : Client) → I c → Stays (handle_block_request platform p i begin size c)
  unfolding handle_block_request
  handle_block_request-Idle i begin size c v =
      if-elim Stays (leb (length c.torrent.pieces) i) (disconnect-Idle c v) (
        >>=-Ensures I (piece_size c.torrent i) _ λ limit e.
          if-elim Stays (ltb limit ((begin + size) % 2 ^ 32)) (disconnect-Idle c v)
            (send_from-Idle i begin size (open_file c.torrent.file.fp c.disk) c v))
