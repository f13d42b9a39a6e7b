-- ===== src/Tests/Querying.antt =====
-- The numbers of a query, and the end of a tracker's header.
use ytorrent.Base.{ℕ, ◌-◌, ◌≤◌, ◌≡◌, refl, List, [], ◌∷◌, arith, done}
use ytorrent.Tests.{all_code}
use ytorrent.Tests.Scenario.{finish_client}
use ytorrent.Client.{Torrent}
use ytorrent.Torrent.Sizes.{piece_size}
use ytorrent.Torrent.Query.{completed, build_tracker_query}
use ytorrent.Torrent.Query.Bounds.{
  Covers, bytes_of_piece, finished_bytes, piece_size-bytes_of_piece, build_tracker_query-bytes,
  build_tracker_query-whole,
}
use ytorrent.Tracker.Response.{skip_header}
use ytorrent.Tracker.Response.Headers.{Skips, skip_header-Skips}

abbrev torrent : Torrent
torrent = finish_client.torrent

torrent-Covers : Covers 0 4 torrent
unfolding all_code
torrent-Covers = record {
  pieces = refl;
  size = refl;
  some_left = omega arith;
  no_more = omega arith;
  countable = omega arith;
  addressable = omega arith;
}

piece_size-bytes_of_piece_example : piece_size torrent 0 ≡ done (bytes_of_piece torrent 0)
unfolding all_code
piece_size-bytes_of_piece_example =
    piece_size-bytes_of_piece 0 4 0 torrent torrent-Covers (omega arith)

build_tracker_query-bytes_example :
    (build_tracker_query completed torrent
      ≡ done (record {
        event = completed;
        downloaded = finished_bytes torrent 0 torrent.pieces;
        uploaded = 0;
        remaining = torrent.total_size - finished_bytes torrent 0 torrent.pieces;
      }))
    × (finished_bytes torrent 0 torrent.pieces ≤ torrent.total_size)
build_tracker_query-bytes_example = build_tracker_query-bytes 0 4 completed torrent torrent-Covers

build_tracker_query-whole_example :
    build_tracker_query completed torrent
    ≡ done
        (record { event = completed; downloaded = torrent.total_size; uploaded = 0; remaining = 0 })
unfolding all_code
build_tracker_query-whole_example =
    build_tracker_query-whole 0 4 completed torrent torrent-Covers refl

-- One header line, the blank line, and a body.
abbrev header : List ℕ
header = b'A' ∷ b'\r' ∷ b'\n' ∷ b'\r' ∷ b'\n' ∷ 7 ∷ []

skip_header-Skips_example : Skips header (skip_header 7 header)
skip_header-Skips_example = skip_header-Skips 7 header (omega arith)
