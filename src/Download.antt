-- ===== src/Download.antt =====
-- src/torrent/torrent.cpp: download, seed, customDownload and disconnectPeers. The main thread sleeps in
-- each round of its loops, and the io_context's thread runs whole handlers meanwhile.
pub mod Seeding
pub mod Custom
pub mod Invariant
pub mod Complete
pub mod Listening
pub mod Accepts
use ytorrent.Base.{
  ℕ, ◌+◌, List, [], ◌∷◌, Option, some, none, Bool, true, false, not, ◌==◌, if◌then◌else◌, length,
  Outcome, done, thrown, undefined, ◌>>=◌, bind_failed,
}
use ytorrent.Net.Acceptor.{
  Acceptor, new_acceptor, is_started, initiate_async_accept_loop, stop, on_accepted,
  on_accept_error,
}
use ytorrent.Net.Link.{new_connection}
use ytorrent.Client.{Client, Torrent, Platform, modify_peer, on_torrent}
use ytorrent.Torrent.Swarm.{disconnect, get_raw_ip, black_list_insert}
use ytorrent.Torrent.Query.{
  TrackerEvent, TrackerQuery, build_tracker_query, none as no_event, completed as completed_event,
  started as started_event, stopped as stopped_event,
}
use ytorrent.Peer.Handshake.{peer_connect}
use ytorrent.Session.{ErrorCode, make_peer, on_accept, on_read, on_write, on_resolve, on_connected}
use ytorrent.Tracker.Response.{Exchange, Decoder}
use ytorrent.Tracker.Announce.{
  Tracker, Program, is_next_request_due, validate_tracker, query_main_tracker,
}

-- What the io_context's thread may run: a completion on the connection of a peer, or on the acceptor.
pub data IoEvent : Type 0 where
  read_done : ℕ → ErrorCode → List ℕ → IoEvent
  write_done resolve_done : ℕ → ErrorCode → IoEvent
  connect_done : ℕ → ErrorCode → ℕ → IoEvent
  accept_done : ℕ → IoEvent
  accept_failed : IoEvent

abbrev pub on_client : Client → Program → Program
on_client c p = record p { client = c }

abbrev pub set_acceptor : Acceptor → Program → Program
set_acceptor a p = record p { acceptor = some a }

-- The handler of an accept that was asked for.
unfoldable pub accept_one : ℕ → Option Acceptor → Program → Program
accept_one ip none p = p
accept_one ip (some a) p =
    if a.accepts == 0 then p else set_acceptor (on_accepted a) (on_client (on_accept ip p.client) p)

unfoldable pub fail_accept : Option Acceptor → Program → Program
fail_accept none p = p
fail_accept (some a) p = if a.accepts == 0 then p else set_acceptor (on_accept_error a) p

unfoldable pub io_step : Platform → IoEvent → Program → Outcome Program
io_step platform (read_done q e bytes) p = do
  c ← on_read platform q e bytes p.client
  done (on_client c p)
io_step platform (write_done q e) p = done (on_client (on_write q e p.client) p)
io_step platform (resolve_done q e) p = done (on_client (on_resolve q e p.client) p)
io_step platform (connect_done q e ip) p = done (on_client (on_connected q e ip p.client) p)
io_step platform (accept_done ip) p = done (accept_one ip p.acceptor p)
io_step platform accept_failed p = done (fail_accept p.acceptor p)

unfoldable pub io_run : Platform → List IoEvent → Program → Outcome Program
io_run platform [] p = done p
io_run platform (e ∷ es) p = do p' ← io_step platform e p; io_run platform es p'

-- One round of a loop of the main thread: the time, what the tracker's connection would deliver, and what
-- the other thread runs while this one sleeps.
pub record Round : Type 0 where
  pub now : ℕ
  pub exchange : Exchange
  pub events : List IoEvent

abbrev pub is_due : ℕ → Option Tracker → Bool
is_due now none = false
is_due now (some t) = is_next_request_due now t

-- `mainTracker` must not be null. The query's result is not looked at.
unfoldable pub poll : Decoder → TrackerEvent → Round → Option Tracker → Program → Outcome Program
poll decode event r none p = undefined
poll decode event r (some t) p =
    if is_next_request_due r.now t
    then query_main_tracker decode r.exchange r.now event (some t) p
    else done p

-- Torrent::disconnectPeers.
unfoldable pub disconnect_all : List ℕ → Client → Client
disconnect_all [] c = c
disconnect_all (q ∷ qs) c = disconnect_all qs (disconnect q c)

unfoldable pub stop_acceptor : Option Acceptor → Program → Program
stop_acceptor none p = p
stop_acceptor (some a) p = set_acceptor (stop a) p

unfoldable pub disconnect_peers : Program → Program
disconnect_peers p =
    let p' = stop_acceptor p.acceptor p in
    on_client (disconnect_all p'.client.torrent.active_peers p'.client) p'

-- enum Torrent::DownloadError.
pub data DownloadError : Type 0 where
  completed tracker_query_failure network_error : DownloadError

-- `while (completedPieces != piecesNeeded)`: whether the loop was left, which the rounds that are given
-- may be too few for.
unfoldable pub download_loop :
    Platform → Decoder → ℕ → List Round → Program → Outcome (Bool × Program)
download_loop platform decode needed [] p = done (p.client.torrent.completed_pieces == needed, p)
download_loop platform decode needed (r ∷ rs) p =
    let more = (do
      p1 ← poll decode no_event r p.main_tracker p
      p2 ← io_run platform r.events p1
      download_loop platform decode needed rs p2) in
    if p.client.torrent.completed_pieces == needed then done (true, p) else more

-- `new Acceptor(port)`, which throws where the port is taken.
unfoldable pub open_acceptor : Bool → ℕ → Option Acceptor → Outcome Acceptor
open_acceptor port_is_free port none =
    if port_is_free then done (new_acceptor port) else thrown bind_failed
open_acceptor port_is_free port (some a) = done a

-- The last announce, and what download returns.
unfoldable pub report_end : Decoder → ℕ → Round → Program → Outcome (DownloadError × Program)
report_end decode needed last p = do
  let is_complete = p.client.torrent.completed_pieces == needed
  p' ←
      query_main_tracker decode last.exchange last.now
        (if is_complete then completed_event else stopped_event) p.main_tracker p
  done (if is_complete then completed else network_error, p')

-- After the loop.
unfoldable pub finish_download :
    Decoder → ℕ → Bool → Round → Program → Outcome (DownloadError × Program)
finish_download decode needed seed_after last p =
    report_end decode needed last (if not seed_after then disconnect_peers p else p)

-- What the network and the other thread bring to a call of download or seed.
pub record Environment : Type 0 where
  pub first : Round
  pub port_is_free : Bool
  pub rounds : List Round
  pub last : Round

unfoldable pub leave_loop :
    Decoder → ℕ → Bool → Round → Bool × Program → Outcome (Option DownloadError × Program)
leave_loop decode needed seed_after last (false, p) = done (none, p)
leave_loop decode needed seed_after last (true, p) = do
  (error, p') ← finish_download decode needed seed_after last p
  done (some error, p')

unfoldable pub start_download :
    Platform
    → Decoder
    → Environment
    → ℕ
    → Bool
    → ℕ
    → Bool × Program
    → Outcome (Option DownloadError × Program)
start_download platform decode env port seed_after needed (false, p) =
    done (some tracker_query_failure, p)
start_download platform decode env port seed_after needed (true, p) = do
  a ← open_acceptor env.port_is_free port p.acceptor
  r ←
      download_loop platform decode needed env.rounds
        (set_acceptor (initiate_async_accept_loop a) p)
  leave_loop decode needed seed_after env.last r

-- Torrent::download. `none` where it is still in its loop after the rounds that are given.
unfoldable pub download :
    Platform → Decoder → Environment → ℕ → Bool → Program → Outcome (Option DownloadError × Program)
download platform decode env port seed_after p = do
  q ← build_tracker_query started_event p.client.torrent
  r ←
      validate_tracker decode env.first.exchange env.first.now p.client.torrent.main_tracker_url q
        port p
  start_download platform decode env port seed_after (length p.client.torrent.pieces) r
