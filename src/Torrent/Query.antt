-- ===== src/Torrent/Query.antt =====
-- src/torrent/torrent.cpp: Torrent::buildTrackerQuery, with TrackerEvent and TrackerQuery of
-- src/torrent/tracker.hpp.
pub mod Bounds
use Prim.Native.Nat.{suc}
use ytorrent.Base.{ℕ, ◌+◌, ◌-◌, ◌%◌, ◌^◌, List, [], ◌∷◌, if◌then◌else◌, Outcome, done, ◌>>=◌}
use ytorrent.Client.{Torrent, Piece}
use ytorrent.Torrent.Sizes.{piece_size}

pub data TrackerEvent : Type 0 where
  none completed started stopped : TrackerEvent

pub record TrackerQuery : Type 0 where
  pub event : TrackerEvent
  pub downloaded : ℕ
  pub uploaded : ℕ
  pub remaining : ℕ

-- The sizes of the finished pieces from piece `i` on, added to `sum`.
unfoldable pub sum_finished : Torrent → ℕ → List Piece → ℕ → Outcome ℕ
sum_finished t i [] sum = done sum
sum_finished t i (p ∷ ps) sum = do
  sum' ← (if p.finished then (do size ← piece_size t i; done ((sum + size) % 2 ^ 64)) else done sum)
  sum_finished t (suc i) ps sum'

unfoldable pub build_tracker_query : TrackerEvent → Torrent → Outcome TrackerQuery
build_tracker_query event t = do
  downloaded ← sum_finished t 0 t.pieces 0
  done (record {
    event = event;
    downloaded = downloaded;
    uploaded = 0;
    remaining = (t.total_size + 2 ^ 64 - downloaded) % 2 ^ 64;
  })
