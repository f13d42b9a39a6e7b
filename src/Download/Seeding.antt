-- ===== src/Download/Seeding.antt =====
-- Torrent::seed of src/torrent/torrent.cpp.
pub mod Returns
use ytorrent.Base.{
  ℕ, List, [], ◌∷◌, Option, some, none, Bool, true, false, if◌then◌else◌, Outcome, done, undefined,
  ◌>>=◌,
}
use ytorrent.Net.Acceptor.{Acceptor, is_started, initiate_async_accept_loop}
use ytorrent.Client.{Platform}
use ytorrent.Torrent.Query.{
  build_tracker_query, completed as completed_event, started as started_event,
}
use ytorrent.Tracker.Response.{Decoder}
use ytorrent.Tracker.Announce.{Program, validate_tracker}
use ytorrent.Download.{Round, Environment, set_acceptor, poll, io_run}

-- `for (;;)`: the state after the rounds that are given. What stands behind the loop is never reached.
unfoldable pub seed_loop : Platform → Decoder → List Round → Program → Outcome Program
seed_loop platform decode [] p = done p
seed_loop platform decode (r ∷ rs) p = do
  p1 ← poll decode completed_event r p.main_tracker p
  p2 ← io_run platform r.events p1
  seed_loop platform decode rs p2

-- `acceptor` must not be null.
unfoldable pub ensure_started : Option Acceptor → Program → Outcome Program
ensure_started none p = undefined
ensure_started (some a) p =
    if is_started a then done p else done (set_acceptor (initiate_async_accept_loop a) p)

unfoldable pub start_seeding :
    Platform → Decoder → List Round → Bool × Program → Outcome (Bool × Program)
start_seeding platform decode rounds (false, p) = done (true, p)
start_seeding platform decode rounds (true, p) = do
  p1 ← ensure_started p.acceptor p
  p2 ← seed_loop platform decode rounds p1
  done (false, p2)

-- Torrent::seed, and whether it has returned.
unfoldable pub seed : Platform → Decoder → Environment → ℕ → Program → Outcome (Bool × Program)
seed platform decode env port p = do
  q ← build_tracker_query started_event p.client.torrent
  r ←
      validate_tracker decode env.first.exchange env.first.now p.client.torrent.main_tracker_url q
        port p
  start_seeding platform decode env.rounds r
