-- ===== src/Torrent/Serve/Slices.antt =====
-- What Torrent::handleBlockRequest of src/torrent/torrent.cpp sends, and what it refuses.
use ytorrent.Base.{
  drop_all, ℕ, ◌+◌, ◌*◌, ◌%◌, ◌^◌, ◌<◌, ◌≤◌, ◌≡◌, refl, ap, ap₂, ◌∙◌, List, ◌++◌, ◌⊎◌, some, none,
  inl, inr, Bool-cases, false, ◌==◌, leb, ltb, if-cases, length, take, drop, length-take,
  length-drop, arith, Outcome, done, ◌>>=◌,
}
use mathlib.Core.List.{append-nil}
use ytorrent.Net.Link.{Connection, close, is_connected, set_error_callback}
use ytorrent.Client.{set_peer, Peer, Client, File, Stream, Platform, on_torrent, run_peer}
use ytorrent.Torrent.Sizes.{piece_size}
use ytorrent.Torrent.Swarm.{disconnect, disconnect_peer}
use ytorrent.Torrent.Disk.{fseek, fread}
use ytorrent.Torrent.Store.{file_offset}
use ytorrent.Torrent.Serve.{
  moved_or, seek_unchecked, open_file, put_stream, count_upload, filled, send_bytes, send_from,
  handle_block_request,
}
use ytorrent.Peer.Send.{send_piece_block}

-- The bytes of the file from `offset` on.
abbrev pub region : ℕ → ℕ → Stream → List ℕ
region offset size s = take size (drop offset s.contents)

-- The block goes to the peer, and its bytes are counted; the file is left at the end of the block.
abbrev pub answer : ℕ → ℕ → ℕ → ℕ → ℕ → Stream → Client → Outcome Client
answer p index begin offset size s c = do
  d ←
      run_peer p (send_piece_block index begin (region offset size s) size)
        (on_torrent (put_stream (record s { position = offset + size })) c)
  done (on_torrent (count_upload size) d)

file_offset-from_start :
    (index begin spacing : ℕ) (f : File)
    → f.begin ≡ 0
    → index * spacing + begin < 2 ^ 63
    → file_offset ((begin + index * spacing % 2 ^ 64) % 2 ^ 64) f ≡ index * spacing + begin
unfolding file_offset
file_offset-from_start index begin spacing f e h = omega arith

seek_unchecked-inside :
    (offset : ℕ) (s : Stream)
    → offset < 2 ^ 63
    → seek_unchecked offset s ≡ record s { position = offset }
unfolding seek_unchecked fseek moved_or
seek_unchecked-inside offset s h =
    if-cases (λ o. moved_or s o ≡ record s { position = offset }) (ltb offset (2 ^ 63)) (λ _. refl)
      (λ e. absurd (ground arith))

filled-all :
    (platform : Platform) (size : ℕ) (bytes : List ℕ)
    → length (platform.new_array size) ≡ size
    → length bytes ≡ size
    → filled platform size bytes ≡ bytes
filled-all platform size bytes array full =
    ap (λ t. bytes ++ t) (drop_all (length bytes) (platform.new_array size) (omega arith))
    ∙ append-nil bytes

length-region :
    (offset size : ℕ) (s : Stream)
    → offset + size ≤ length s.contents
    → length (region offset size s) ≡ size
length-region offset size s h =
    omega (arith, length-take size (drop offset s.contents), length-drop offset s.contents)

send_bytes-all :
    (platform : Platform) (p index begin offset size : ℕ) (s : Stream) (c : Client)
    → length (platform.new_array size) ≡ size
    → 0 < size
    → offset + size ≤ length s.contents
    → send_bytes platform p index begin size (fread size (record s { position = offset })) c
      ≡ answer p index begin offset size s c
unfolding send_bytes fread
send_bytes-all platform p index begin offset size s c array some_bytes inside =
    let full = length-region offset size s inside in
    if-cases (λ m. m ≡ answer p index begin offset size s c) (length (region offset size s) == 0)
      (λ e. absurd (ground arith))
      (λ _.
        ap₂
          (λ k bytes. do
            d ←
                run_peer p (send_piece_block index begin bytes size)
                  (on_torrent (put_stream (record s { position = offset + k })) c)
            done (on_torrent (count_upload size) d))
          full (filled-all platform size (region offset size s) array full))

not_outside :
    (count index limit end : ℕ)
    → end < 2 ^ 32
    → (count ≤ index) ⊎ (limit < end)
    → leb count index ≡ false
    → ltb limit (end % 2 ^ 32) ≡ false
    → ⊥
not_outside count index limit end small outside e d = ground arith

-- The connection is closed, and reports no more errors.
abbrev pub closed : Connection → Connection
closed k = record k { is_open = false; error_cb = none }

disconnect_peer-closed : (x : Peer) → disconnect_peer x ≡ record x { conn = closed x.conn }
unfolding disconnect_peer close is_connected set_error_callback
disconnect_peer-closed x = elim (Bool-cases x.conn.is_open) [
  | inl e ↦ rw e refl
  | inr e ↦ rw e refl
]

-- A request is refused if it names no piece, or a block that goes past the end of its piece, as long as
-- the end of the block is a uint32_t: the peer's connection is closed and forgets its error handler, and
-- nothing else changes, so nothing is sent.
pub handle_block_request-refuses :
    (platform : Platform) (p index begin size limit : ℕ) (c : Client)
    → piece_size c.torrent index ≡ done limit
    → begin + size < 2 ^ 32
    → (length c.torrent.pieces ≤ index) ⊎ (limit < begin + size)
    → handle_block_request platform p index begin size c
      ≡ done (set_peer p (record (c.peers p) { conn = closed (c.peers p).conn }) c)
unfolding handle_block_request disconnect
handle_block_request-refuses platform p index begin size limit c known small outside =
    if-cases (λ m. m ≡ done (disconnect p c)) (leb (length c.torrent.pieces) index) (λ _. refl)
      (λ e. rw known (
        if-cases (λ m. m ≡ done (disconnect p c)) (ltb limit ((begin + size) % 2 ^ 32)) (λ _. refl)
          (λ d.
            absurd (
              not_outside (length c.torrent.pieces) index limit (begin + size) small outside e d))))
    ∙ ap (λ x. done (set_peer p x c)) (disconnect_peer-closed (c.peers p))

not_refused :
    (count index limit end : ℕ)
    → index < count
    → end ≤ limit
    → limit < 2 ^ 32
    → (leb count index ≡ false) × (ltb limit (end % 2 ^ 32) ≡ false)
not_refused count index limit end h k l = (ground arith, ground arith)

-- A request for a block inside a piece, whose bytes the open file has, is answered with exactly the
-- file's bytes from index * piece length + begin on.
pub handle_block_request-answers :
    (platform : Platform) (p index begin size limit : ℕ) (s : Stream) (c : Client)
    → length (platform.new_array size) ≡ size
    → c.torrent.file.fp ≡ some s
    → c.torrent.file.begin ≡ 0
    → index < length c.torrent.pieces
    → piece_size c.torrent index ≡ done limit
    → limit < 2 ^ 32
    → 0 < size
    → begin + size ≤ limit
    → index * c.torrent.piece_length + begin + size ≤ length s.contents
    → length s.contents < 2 ^ 63
    → handle_block_request platform p index begin size c
      ≡ answer p index begin (index * c.torrent.piece_length + begin) size s c
unfolding handle_block_request send_from open_file
handle_block_request-answers platform p index begin size limit s c array opened start known_index
      known narrow some_bytes within inside short =
    let offset = index * c.torrent.piece_length + begin in
    let (is_piece, fits) =
      not_refused (length c.torrent.pieces) index limit (begin + size) known_index within narrow in
    rw (is_piece, known, fits)
      (ap (λ fp. send_from platform p index begin size (open_file fp c.disk) c) opened
        ∙ ap (λ o. send_bytes platform p index begin size (fread size (seek_unchecked o s)) c)
            (file_offset-from_start index begin c.torrent.piece_length c.torrent.file start
              (omega arith))
        ∙ ap (λ t. send_bytes platform p index begin size (fread size t) c)
            (seek_unchecked-inside offset s (omega arith))
        ∙ send_bytes-all platform p index begin offset size s c array some_bytes inside)
