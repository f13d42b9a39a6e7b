-- ===== src/Machine/Pieces.antt =====
-- Pieces that are asked for, completed or served make moves of the abstract machine.
use ytorrent.Base.{
  ℕ, ◌+◌, ◌*◌, ◌%◌, ◌^◌, ◌≡◌, refl, ◌∙◌, List, [], ◌∷◌, Option, some, none, false, not, ◌==◌, leb,
  ltb, length, Outcome, done, Ensures, Ensures-then, >>=-Ensures, if-elim, if-cases, ◌>>=◌,
}
use ytorrent.Client.{
  Client, Torrent, Peer, Stream, Platform, PeerError, int32_max, modify_peer, run_peer, on_torrent,
  peer_choking, test_state,
}
use ytorrent.Torrent.Sizes.{piece_size, piece_done, check_piece_hash, is_fully_downloaded}
use ytorrent.Torrent.Disk.{fread, fseek}
use ytorrent.Torrent.Swarm.{disconnect, remove_peer, handle_error}
use ytorrent.Torrent.Select.{
  Selection, unrequested, least, select_loop, act_on, select_piece_and_request,
}
use ytorrent.Torrent.Store.{accept_piece, announce, handle_piece_completed, file_offset}
use ytorrent.Torrent.Serve.{
  seek_unchecked, moved_or, open_file, put_stream, filled, send_bytes, send_from,
  handle_block_request,
}
use ytorrent.Peer.Send.{send_have, send_interested, send_request, send_piece_block}
use ytorrent.Peer.Request.{each_block, request_piece, send_piece_request, new_queued_piece, enqueue}
use ytorrent.Peer.Messages.{keep_reading, select_unless_complete}
use ytorrent.Machine.{Moves, move, meet, ask, miss, accept, open_anew, reposition, upload}

module _ (platform : Platform) (start : Torrent) where
  -- The client's torrent is reached from `start`.
  abbrev pub Moved : Client → Type 0
  Moved c = Moves platform start c.torrent

  abbrev pub Keeps : Outcome Client → Type 0
  Keeps = Ensures Moved

  -- What only a peer does leaves the torrent.
  pub run_peer-Moved :
      (p : ℕ) (f : Peer → Outcome Peer) (c : Client) → Moved c → Keeps (run_peer p f c)
  run_peer-Moved p f c v = >>=-Ensures Moved (f (c.peers p)) _ λ x e. v

  -- Two steps that keep it.
  pub then_keep :
      (m : Outcome Client) (f : Client → Outcome Client)
      → Keeps m
      → ((d : Client) → Moved d → Keeps (f d))
      → Keeps (m >>= f)
  then_keep m f v h = Ensures-then Moved Moved m f v h

  pub disconnect-Moved : (p : ℕ) (c : Client) → Moved c → Moved (disconnect p c)
  unfolding disconnect
  disconnect-Moved p c v = v

  pub handle_error-Moved :
      (p : ℕ) (e : PeerError) (c : Client) → Moved c → Moved (handle_error p e c)
  unfolding handle_error remove_peer disconnect
  handle_error-Moved p e c v = move v (meet _ c.torrent.black_listed)

  pub keep_reading-Moved : (p : ℕ) (c : Client) → Moved c → Moved (keep_reading p c)
  unfolding keep_reading
  keep_reading-Moved p c v = v

  pub request_piece-Moved : (p i : ℕ) (c : Client) → Moved c → Keeps (request_piece p i c)
  unfolding request_piece
  request_piece-Moved p i c v =
      if-elim Keeps (test_state peer_choking (c.peers p)) (handle_error-Moved p _ c v) (
        >>=-Ensures Moved (piece_size c.torrent i) _
          λ size e. run_peer-Moved p (each_block (send_request i) size) c v)

  send_piece_request-Moved : (p i : ℕ) (c : Client) → Moved c → Keeps (send_piece_request p i c)
  unfolding send_piece_request
  send_piece_request-Moved p i c v =
      >>=-Ensures Moved (piece_size c.torrent (i % 2 ^ 32)) _ λ size e.
        let d =
          modify_peer p (enqueue (new_queued_piece (i % 2 ^ 32) (size % 2 ^ 32)))
            (modify_peer p send_interested c) in
        let kept : Keeps (done d) = v in
        if-elim Keeps (test_state peer_choking (d.peers p)) kept
          (request_piece-Moved p (i % 2 ^ 32) d v)

  act_on-Moved : (p : ℕ) (s : Selection) (c : Client) → Moved c → Keeps (act_on p s c)
  unfolding act_on
  act_on-Moved p (unrequested i) c v = send_piece_request-Moved p i _ (move v (ask i (λ _. 1)))
  act_on-Moved p (least i priority) c v =
      if-elim Keeps (priority == int32_max) v
        (send_piece_request-Moved p i _ (move v (ask i (λ n. n + 1))))

  pub select_unless_complete-Moved :
      (p : ℕ) (c : Client) → Moved c → Keeps (select_unless_complete p c)
  unfolding select_unless_complete select_piece_and_request
  select_unless_complete-Moved p c v =
      if-elim Keeps (not (is_fully_downloaded c.torrent))
        (act_on-Moved p (select_loop (c.peers p).has_piece_indexes c.torrent.pieces 0 0 int32_max) c
          v)
        v

  announce-Moved : (i : ℕ) (ps : List ℕ) (c : Client) → Moved c → Keeps (announce i ps c)
  unfolding announce
  announce-Moved i [] c v = v
  announce-Moved i (p ∷ ps) c v =
      then_keep (run_peer p (send_have i) c) _ (run_peer-Moved p (send_have i) c v)
        (λ d w. announce-Moved i ps d w)

  pub handle_piece_completed-Moved :
      (i : ℕ) (bytes : List ℕ) (c : Client)
      → piece_done c.torrent i ≡ done false
      → Moved c
      → Keeps (handle_piece_completed platform i bytes c)
  unfolding handle_piece_completed
  handle_piece_completed-Moved i bytes c new v =
      if-cases Keeps (check_piece_hash platform bytes i c.torrent)
        (λ hashed.
          >>=-Ensures Moved (accept_piece i bytes c.torrent) _
            λ t e. announce-Moved i t.active_peers _ (move v (accept i bytes hashed new e)))
        (λ _. move v (miss bytes))

  -- A seek that may fail, and a read, change no more than the position.
  seek_unchecked-same :
      (offset : ℕ) (s : Stream)
      → ((seek_unchecked offset s).contents ≡ s.contents)
        × ((seek_unchecked offset s).room ≡ s.room)
  unfolding seek_unchecked moved_or fseek
  seek_unchecked-same offset s =
      if-elim (λ o. ((moved_or s o).contents ≡ s.contents) × ((moved_or s o).room ≡ s.room))
        (ltb offset (2 ^ 63)) (refl, refl) (refl, refl)

  send_bytes-Moved :
      (p i begin size : ℕ) (bytes : List ℕ) (s : Stream) (c : Client)
      → Moved (on_torrent (put_stream s) c)
      → Keeps (send_bytes platform p i begin size (bytes, s) c)
  unfolding send_bytes
  send_bytes-Moved p i begin size bytes s c v = if-elim Keeps (length bytes == 0) v (
      then_keep
        (run_peer p (send_piece_block i begin (filled platform size bytes) size)
          (on_torrent (put_stream s) c))
        _
        (run_peer-Moved p (send_piece_block i begin (filled platform size bytes) size)
          (on_torrent (put_stream s) c) v)
        (λ d w. move w (upload size)))

  -- The stream that is served from, moved to where it is after the read.
  served-Moved :
      (fp disk : Option Stream) (s s' : Stream) (c : Client)
      → c.torrent.file.fp ≡ fp
      → open_file fp disk ≡ some s
      → (s'.contents ≡ s.contents) × (s'.room ≡ s.room)
      → Moved c
      → Moved (on_torrent (put_stream s') c)
  unfolding open_file
  served-Moved none disk s s' c e o same v = move v (open_anew s' e)
  served-Moved (some s0) disk s s' c e o same v = move v (reposition s s' (e ∙ o) same.0 same.1)

  send_from-Moved :
      (p i begin size : ℕ) (o : Option Stream) (c : Client)
      → open_file c.torrent.file.fp c.disk ≡ o
      → Moved c
      → Keeps (send_from platform p i begin size o c)
  unfolding send_from fread
  send_from-Moved p i begin size none c e v = v
  send_from-Moved p i begin size (some s) c e v =
      let offset =
        file_offset ((begin + i * c.torrent.piece_length % 2 ^ 64) % 2 ^ 64) c.torrent.file in
      let moved = fread size (seek_unchecked offset s) in
      send_bytes-Moved p i begin size moved.0 moved.1 c
        (served-Moved c.torrent.file.fp c.disk s moved.1 c refl e (seek_unchecked-same offset s) v)

  pub handle_block_request-Moved :
      (p i begin size : ℕ) (c : Client)
      → Moved c
      → Keeps (handle_block_request platform p i begin size c)
  unfolding handle_block_request
  handle_block_request-Moved p i begin size c v =
      if-elim Keeps (leb (length c.torrent.pieces) i) (disconnect-Moved p c v) (
        >>=-Ensures Moved (piece_size c.torrent i) _ λ limit e.
          if-elim Keeps (ltb limit ((begin + size) % 2 ^ 32)) (disconnect-Moved p c v)
            (send_from-Moved p i begin size (open_file c.torrent.file.fp c.disk) c refl v))
