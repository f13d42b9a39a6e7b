-- ===== src/Download/Seeding/Returns.antt =====
-- What seed of src/torrent/torrent.cpp keeps, and when it returns.
use ytorrent.Base.{
  ℕ, List, [], ◌∷◌, Option, some, none, Bool, true, false, if-elim, Ensures, Ensures-then,
  >>=-Ensures,
}
use ytorrent.Net.Acceptor.{Acceptor, is_started}
use ytorrent.Client.{Client, Platform}
use ytorrent.Events.{Event, step}
use ytorrent.Torrent.Swarm.{disconnect}
use ytorrent.Torrent.Query.{
  build_tracker_query, completed as completed_event, started as started_event,
}
use ytorrent.Tracker.Response.{Decoder}
use ytorrent.Tracker.Announce.{Program, validate_tracker}
use ytorrent.Download.{Round, Environment, poll, io_run}
use ytorrent.Download.Seeding.{seed_loop, ensure_started, start_seeding, seed}
use ytorrent.Download.Invariant.{
  OfClient, Kept, poll-OfClient, io_run-OfClient, validate_tracker-Kept,
}

module _ (platform : Platform) (P : Client → Type 0)
    (on_step : (ev : Event) (c : Client) → P c → Ensures P (step platform ev c))
    (on_disconnect : (q : ℕ) (c : Client) → P c → P (disconnect q c)) where
  seed_loop-OfClient :
      (decode : Decoder) (rs : List Round) (p : Program)
      → P p.client
      → Ensures (OfClient P) (seed_loop platform decode rs p)
  unfolding seed_loop
  seed_loop-OfClient decode [] p v = v
  seed_loop-OfClient decode (r ∷ rs) p v =
      Ensures-then (OfClient P) (OfClient P) (poll decode completed_event r p.main_tracker p) _
        (poll-OfClient platform P on_step on_disconnect decode completed_event r p.main_tracker p v)
        λ p1 v1.
          Ensures-then (OfClient P) (OfClient P) (io_run platform r.events p1) _
            (io_run-OfClient platform P on_step on_disconnect r.events p1 v1)
            λ p2 v2. seed_loop-OfClient decode rs p2 v2

  ensure_started-OfClient :
      (a : Option Acceptor) (p : Program) → P p.client → Ensures (OfClient P) (ensure_started a p)
  unfolding ensure_started
  ensure_started-OfClient none p v = tt
  ensure_started-OfClient (some a) p v = if-elim (Ensures (OfClient P)) (is_started a) v v

  start_seeding-Kept :
      (decode : Decoder) (rs : List Round) (r : Bool × Program)
      → Kept P r
      → Ensures (Kept P) (start_seeding platform decode rs r)
  unfolding start_seeding
  start_seeding-Kept decode rs (false, p) v = v
  start_seeding-Kept decode rs (true, p) v =
      Ensures-then (OfClient P) (Kept P) (ensure_started p.acceptor p) _
        (ensure_started-OfClient p.acceptor p v)
        λ p1 v1.
          Ensures-then (OfClient P) (Kept P) (seed_loop platform decode rs p1) _
            (seed_loop-OfClient decode rs p1 v1) λ p2 v2. v2

  pub seed-Kept :
      (decode : Decoder) (env : Environment) (port : ℕ) (p : Program)
      → P p.client
      → Ensures (Kept P) (seed platform decode env port p)
  unfolding seed
  seed-Kept decode env port p v =
      >>=-Ensures (Kept P) (build_tracker_query started_event p.client.torrent) _ λ q _.
        Ensures-then (Kept P) (Kept P)
          (validate_tracker decode env.first.exchange env.first.now
            p.client.torrent.main_tracker_url q port p)
          _
          (validate_tracker-Kept platform P on_step on_disconnect decode env.first.exchange
            env.first.now p.client.torrent.main_tracker_url q port p v)
          λ r w. start_seeding-Kept decode env.rounds r w
