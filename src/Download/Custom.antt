-- ===== src/Download/Custom.antt =====
-- Torrent::customDownload of src/torrent/torrent.cpp: a download from one peer, with no tracker.
use ytorrent.Base.{
  ℕ, List, [], ◌∷◌, none, Bool, true, false, ◌==◌, if◌then◌else◌, length, Outcome, done, ◌>>=◌,
}
use ytorrent.Net.Link.{new_connection}
use ytorrent.Client.{Client, Torrent, Platform, modify_peer, on_torrent}
use ytorrent.Torrent.Swarm.{disconnect, get_raw_ip, black_list_insert}
use ytorrent.Peer.Handshake.{peer_connect}
use ytorrent.Session.{make_peer}
use ytorrent.Tracker.Announce.{Program}
use ytorrent.Download.{IoEvent, on_client, io_run}

-- The address of the new peer is not known yet, so 0 is what is black-listed.
unfoldable pub start_custom : List ℕ → List ℕ → Client → Client
start_custom ip port c =
    let d = make_peer new_connection c in
    modify_peer c.allocated (peer_connect ip port) (
      on_torrent
        (λ t. record t {
          black_listed = black_list_insert (get_raw_ip d c.allocated) t.black_listed;
        })
        d)

-- `while (completedPieces != piecesNeeded)` with what the other thread runs in each round.
unfoldable pub custom_loop : Platform → ℕ → List (List IoEvent) → Program → Outcome (Bool × Program)
custom_loop platform needed [] p = done (p.client.torrent.completed_pieces == needed, p)
custom_loop platform needed (es ∷ rounds) p =
    let more = (do p' ← io_run platform es p; custom_loop platform needed rounds p') in
    if p.client.torrent.completed_pieces == needed then done (true, p) else more

-- fclose, where there is a file.
unfoldable pub close_file : Torrent → Torrent
close_file t = record t { file = record (t.file) { fp = none } }

unfoldable pub end_custom : ℕ → Bool × Program → Bool × Program
end_custom q (false, p) = (false, p)
end_custom q (true, p) = (true, on_client (disconnect q (on_torrent close_file p.client)) p)

-- Whether it has returned, and the state.
unfoldable pub custom_download :
    Platform → List ℕ → List ℕ → List (List IoEvent) → Program → Outcome (Bool × Program)
custom_download platform ip port rounds p = do
  r ←
      custom_loop platform (length p.client.torrent.pieces) rounds
        (on_client (start_custom ip port p.client) p)
  done (end_custom p.client.allocated r)
