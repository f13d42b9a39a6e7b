-- ===== src/Machine.antt =====
-- An abstract machine of the torrent's record in src/torrent/torrent.cpp: the moves that its fields make
-- while peers are served, and none other.
pub mod Pieces
pub mod Messages
pub mod Run
pub mod Progress
use ytorrent.Base.{ℕ, ◌≡◌, List, some, none, true, false, Outcome, done}
use ytorrent.Client.{Torrent, Stream, Platform}
use ytorrent.Torrent.Sizes.{check_piece_hash, piece_done}
use ytorrent.Torrent.Select.{on_piece}
use ytorrent.Torrent.Store.{accept_piece, count_miss}
use ytorrent.Torrent.Serve.{put_stream, count_upload}

-- One move: the lists of peers change, a piece is asked for, a piece with a wrong hash is counted, one with
-- the right hash that was not there yet is accepted, the file is opened, its position moves, or an upload is
-- counted.
pub data Move (platform : Platform) (t : Torrent) : Torrent → Type 0 where
  meet :
      (active black : List ℕ)
      → Move platform t (record t { active_peers = active; black_listed = black })
  ask :
      (i : ℕ) (f : ℕ → ℕ)
      → Move platform t (on_piece i (λ q. record q { priority = f q.priority }) t)
  miss : (bytes : List ℕ) → Move platform t (count_miss bytes t)
  accept :
      {u : Torrent} (i : ℕ) (bytes : List ℕ)
      → check_piece_hash platform bytes i t ≡ true
      → piece_done t i ≡ done false
      → accept_piece i bytes t ≡ done u
      → Move platform t u
  open_anew : (s : Stream) → t.file.fp ≡ none → Move platform t (put_stream s t)
  reposition :
      (s s' : Stream)
      → t.file.fp ≡ some s
      → s'.contents ≡ s.contents
      → s'.room ≡ s.room
      → Move platform t (put_stream s' t)
  upload : (size : ℕ) → Move platform t (count_upload size t)

-- Moves one after another.
pub data Moves (platform : Platform) (t : Torrent) : Torrent → Type 0 where
  stay : Moves platform t t
  move : {u w : Torrent} → Moves platform t u → Move platform u w → Moves platform t w
