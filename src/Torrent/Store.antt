-- ===== src/Torrent/Store.antt =====
-- src/torrent/torrent.cpp: what happens when all blocks of a piece have arrived.
use ytorrent.Base.{
  ℕ, ◌+◌, ◌-◌, ◌*◌, ◌%◌, ◌^◌, List, [], ◌∷◌, Option, some, none, true, ◌==◌, leb, if◌then◌else◌,
  length, set, Outcome, done, thrown, undefined, ◌>>=◌, fseek_failed, fwrite_failed,
}
use ytorrent.Client.{Client, Torrent, File, Stream, Platform, on_torrent, run_peer}
use ytorrent.Torrent.Sizes.{check_piece_hash}
use ytorrent.Torrent.Disk.{fseek, fwrite}
use ytorrent.Torrent.Select.{on_piece}
use ytorrent.Peer.Send.{send_have}

-- `beginPos - file.begin` as a long.
unfoldable pub file_offset : ℕ → File → ℕ
file_offset position f = (position + 2 ^ 64 - f.begin) % 2 ^ 64

-- The stream that `file.fp` points to. A null pointer must not be used.
unfoldable pub stream_of : Option Stream → Outcome Stream
stream_of none = undefined
stream_of (some s) = done s

unfoldable pub seek_or_throw : Option Stream → Outcome Stream
seek_or_throw none = thrown fseek_failed
seek_or_throw (some s) = done s

unfoldable pub all_or_throw : List ℕ → ℕ × Stream → Outcome Stream
all_or_throw bytes (wrote, s) = if wrote == length bytes then done s else thrown fwrite_failed

-- The bytes of a piece into the file.
unfoldable pub write_piece : ℕ → List ℕ → Torrent → Outcome Torrent
write_piece index bytes t = do
  s ← stream_of t.file.fp
  s' ← seek_or_throw (fseek (file_offset (index * t.piece_length % 2 ^ 64) t.file) s)
  s'' ← all_or_throw bytes (fwrite bytes s')
  done (record t { file = record (t.file) { fp = some s'' } })

-- `bitfield.set(index)` wants an index below the size.
unfoldable pub set_bit : ℕ → Torrent → Outcome Torrent
set_bit index t =
    if leb (length t.bitfield) index
    then undefined
    else done (record t { bitfield = set t.bitfield index true })

unfoldable pub count_piece : ℕ → List ℕ → Torrent → Torrent
count_piece index bytes t = record (on_piece index (λ q. record q { finished = true }) t) {
  downloaded_bytes = (t.downloaded_bytes + length bytes) % 2 ^ 64;
  completed_pieces = (t.completed_pieces + 1) % 2 ^ 64;
}

-- `peer->sendHave(index)` for the peers of a list.
unfoldable pub announce : ℕ → List ℕ → Client → Outcome Client
announce index [] c = done c
announce index (p ∷ ps) c = do d ← run_peer p (send_have index) c; announce index ps d

unfoldable pub count_miss : List ℕ → Torrent → Torrent
count_miss bytes t = record t {
  piece_hash_misses = (t.piece_hash_misses + 1) % 2 ^ 64;
  wasted_bytes = (t.wasted_bytes + length bytes) % 2 ^ 64;
}

-- A piece whose hash matches: to the file, into the bit field and the counters.
unfoldable pub accept_piece : ℕ → List ℕ → Torrent → Outcome Torrent
accept_piece index bytes t = do
  t' ← write_piece index bytes t
  t'' ← set_bit index t'
  done (count_piece index bytes t'')

unfoldable pub handle_piece_completed : Platform → ℕ → List ℕ → Client → Outcome Client
handle_piece_completed platform index bytes c =
    if check_piece_hash platform bytes index c.torrent
    then (do
      t ← accept_piece index bytes c.torrent
      announce index t.active_peers (record c { torrent = t }))
    else done (on_torrent (count_miss bytes) c)
