-- ===== src/Soundness/Serving.antt =====
-- Answering a request reads the file, and changes nothing that the books speak of.
use ytorrent.Base.{
  ℕ, ◌+◌, ◌*◌, ◌%◌, ◌^◌, ◌≡◌, refl, sym, ◌∙◌, List, [], Option, some, none, ◌==◌, leb, ltb, length,
  arith, Ensures, Ensures-then, >>=-Ensures, if-elim, subst,
}
use ytorrent.Client.{Client, Torrent, Piece, Stream, Platform, on_torrent, run_peer}
use ytorrent.Torrent.Sizes.{piece_size}
use ytorrent.Torrent.Disk.{fseek, fread}
use ytorrent.Torrent.Store.{file_offset}
use ytorrent.Torrent.Serve.{
  moved_or, seek_unchecked, open_file, put_stream, filled, send_bytes, send_from,
  handle_block_request,
}
use ytorrent.Peer.Send.{send_piece_block}
use ytorrent.Soundness.{SoundTorrent, Sound, Stored, file_bytes}
use ytorrent.Soundness.Lookup.{get_elem?-within}
use ytorrent.Soundness.Peers.{run_peer-Sound, disconnect-Sound, send_piece_block-KeepsQueue}

-- What holds of an empty file holds of any.
Stored-empty :
    (platform : Platform) (spacing : ℕ) (file : List ℕ) (pieces : List Piece)
    → Stored platform spacing [] pieces
    → Stored platform spacing file pieces
Stored-empty platform spacing file pieces v i q e f =
    let (bytes, digest, fits, there) = v i q e f in
    (
      bytes,
      digest,
      fits,
      λ k h.
          let (x, at) = get_elem?-within bytes k h in
          let gap : ◌≡◌ {A = Option ℕ} none (some x) = there k h ∙ at in absurd (cc gap),
    )

-- A file that was open stays the same file; where none was, no piece was stored.
open_file-Stored :
    (platform : Platform) (spacing : ℕ) (fp disk : Option Stream) (pieces : List Piece) {s : Stream}
    → open_file fp disk ≡ some s
    → Stored platform spacing (file_bytes fp) pieces
    → Stored platform spacing s.contents pieces
unfolding open_file
open_file-Stored platform spacing none disk pieces {s} e v =
    Stored-empty platform spacing s.contents pieces v
open_file-Stored platform spacing (some old) disk pieces {s} e v =
    let same : old ≡ s = cc in
    subst (λ (x : Stream). Stored platform spacing x.contents pieces) same v

pub seek_unchecked-contents :
    (offset : ℕ) (s : Stream) → (seek_unchecked offset s).contents ≡ s.contents
unfolding seek_unchecked moved_or fseek
seek_unchecked-contents offset s = ground arith

pub fread-contents : (size : ℕ) (s : Stream) → (fread size s).1.contents ≡ s.contents
unfolding fread
fread-contents size s = refl

module _ (platform : Platform) (spacing : ℕ) where
  put_stream-SoundTorrent :
      (s : Stream) (t : Torrent)
      → Stored platform spacing s.contents t.pieces
      → SoundTorrent platform spacing t
      → SoundTorrent platform spacing (put_stream s t)
  put_stream-SoundTorrent s t stored v = record {
    spaced = v.spaced;
    counted = v.counted;
    mirrored = v.mirrored;
    from_start = v.from_start;
    addressable = v.addressable;
    countable = v.countable;
    stored = stored;
  }

  send_bytes-Sound :
      (p i begin size : ℕ) (bytes : List ℕ) (s : Stream) (c : Client)
      → Stored platform spacing s.contents c.torrent.pieces
      → Sound platform spacing c
      → Ensures (Sound platform spacing) (send_bytes platform p i begin size (bytes, s) c)
  unfolding send_bytes
  send_bytes-Sound p i begin size bytes s c stored v =
      let opened = on_torrent (put_stream s) c in
      let w : Sound platform spacing opened =
        (put_stream-SoundTorrent s c.torrent stored v.0, v.1) in
      if-elim (Ensures (Sound platform spacing)) (length bytes == 0) w (
        Ensures-then (Sound platform spacing) (Sound platform spacing)
          (run_peer p (send_piece_block i begin (filled platform size bytes) size) opened) _
          (run_peer-Sound platform spacing p
            (send_piece_block i begin (filled platform size bytes) size) opened
            (send_piece_block-KeepsQueue i begin (filled platform size bytes) size (opened.peers p))
            w)
          (λ d u. u))

  send_from-Sound :
      (p i begin size : ℕ) (o : Option Stream) (c : Client)
      → ((s : Stream) → o ≡ some s → Stored platform spacing s.contents c.torrent.pieces)
      → Sound platform spacing c
      → Ensures (Sound platform spacing) (send_from platform p i begin size o c)
  unfolding send_from
  send_from-Sound p i begin size none c stored v = v
  send_from-Sound p i begin size (some s) c stored v =
      let offset =
        file_offset ((begin + i * c.torrent.piece_length % 2 ^ 64) % 2 ^ 64) c.torrent.file in
      let moved = seek_unchecked offset s in
      send_bytes-Sound p i begin size (fread size moved).0 (fread size moved).1 c
        (subst (λ (file : List ℕ). Stored platform spacing file c.torrent.pieces)
          (sym (fread-contents size moved ∙ seek_unchecked-contents offset s)) (stored s refl))
        v

  pub handle_block_request-Sound :
      (p i begin size : ℕ) (c : Client)
      → Sound platform spacing c
      → Ensures (Sound platform spacing) (handle_block_request platform p i begin size c)
  unfolding handle_block_request
  handle_block_request-Sound p i begin size c v =
      if-elim (Ensures (Sound platform spacing)) (leb (length c.torrent.pieces) i)
        (disconnect-Sound platform spacing p c v)
        (>>=-Ensures (Sound platform spacing) (piece_size c.torrent i) _ λ limit e.
          if-elim (Ensures (Sound platform spacing)) (ltb limit ((begin + size) % 2 ^ 32))
            (disconnect-Sound platform spacing p c v)
            (send_from-Sound p i begin size (open_file c.torrent.file.fp c.disk) c
              (λ s o.
                open_file-Stored platform spacing c.torrent.file.fp c.disk c.torrent.pieces o
                  v.0.stored)
              v))
