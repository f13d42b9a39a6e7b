-- ===== src/Torrent/Serve.antt =====
-- src/torrent/torrent.cpp: answering a request for a block.
pub mod Slices
use ytorrent.Base.{
  ℕ, ◌+◌, ◌*◌, ◌%◌, ◌^◌, List, ◌++◌, Option, some, none, ◌==◌, leb, ltb, if◌then◌else◌, length,
  drop, Outcome, done, ◌>>=◌,
}
use ytorrent.Client.{Client, Torrent, Stream, Platform, on_torrent, run_peer}
use ytorrent.Torrent.Sizes.{piece_size}
use ytorrent.Torrent.Swarm.{disconnect}
use ytorrent.Torrent.Disk.{fseek, fread}
use ytorrent.Torrent.Store.{file_offset}
use ytorrent.Peer.Send.{send_piece_block}

unfoldable pub moved_or : Stream → Option Stream → Stream
moved_or s none = s
moved_or s (some s') = s'

-- A seek that fails leaves the position where it was; its result is not looked at.
unfoldable pub seek_unchecked : ℕ → Stream → Stream
seek_unchecked offset s = moved_or s (fseek offset s)

-- The file is opened anew where there is none.
unfoldable pub open_file : Option Stream → Option Stream → Option Stream
open_file none disk = disk
open_file (some s) disk = some s

abbrev pub put_stream : Stream → Torrent → Torrent
put_stream s t = record t { file = record (t.file) { fp = some s } }

abbrev pub count_upload : ℕ → Torrent → Torrent
count_upload size t = record t { uploaded_bytes = (t.uploaded_bytes + size) % 2 ^ 64 }

-- What the array of `size` bytes holds after `fread` stored `bytes` at its front.
abbrev pub filled : Platform → ℕ → List ℕ → List ℕ
filled platform size bytes = bytes ++ drop (length bytes) (platform.new_array size)

unfoldable pub send_bytes : Platform → ℕ → ℕ → ℕ → ℕ → List ℕ × Stream → Client → Outcome Client
send_bytes platform p index begin size (bytes, s) c =
    if length bytes == 0 then done (on_torrent (put_stream s) c) else do
      d ←
          run_peer p (send_piece_block index begin (filled platform size bytes) size)
            (on_torrent (put_stream s) c)
      done (on_torrent (count_upload size) d)

unfoldable pub send_from : Platform → ℕ → ℕ → ℕ → ℕ → Option Stream → Client → Outcome Client
send_from platform p index begin size none c = done c
send_from platform p index begin size (some s) c =
    send_bytes platform p index begin size
      (fread size (
        seek_unchecked
          (file_offset ((begin + index * c.torrent.piece_length % 2 ^ 64) % 2 ^ 64) c.torrent.file)
          s))
      c

-- `begin + length` is a uint32_t sum.
unfoldable pub handle_block_request : Platform → ℕ → ℕ → ℕ → ℕ → Client → Outcome Client
handle_block_request platform p index begin size c =
    if leb (length c.torrent.pieces) index then done (disconnect p c) else (do
      limit ← piece_size c.torrent index
      (if ltb limit ((begin + size) % 2 ^ 32)
          then done (disconnect p c)
          else send_from platform p index begin size (open_file c.torrent.file.fp c.disk) c))
