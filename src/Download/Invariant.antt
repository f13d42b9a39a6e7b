-- ===== src/Download/Invariant.antt =====
-- An invariant of the client's events is an invariant of the main thread's loops: download, seed and
-- customDownload of src/torrent/torrent.cpp.
use ytorrent.Base.{
  ℕ, ◌≡◌, sym, subst, ◌⊎◌, inl, inr, List, [], ◌∷◌, Option, some, none, Bool, true, false, ◌==◌,
  if-elim, if-cases, same_of_test, done, Ensures, Ensures-done, Ensures-then, Ensures-map,
  >>=-Ensures,
}
use ytorrent.Net.Acceptor.{Acceptor}
use ytorrent.Client.{Client, Platform}
use ytorrent.Events.{
  Event, step, read_done as client_read, write_done as client_wrote,
  resolve_done as client_resolved, connect_done as client_connected, accepted, tracker_answered,
}
use ytorrent.Torrent.Swarm.{disconnect}
use ytorrent.Torrent.Query.{TrackerEvent, TrackerQuery, build_tracker_query, none as no_event}
use ytorrent.Utils.TrackerUrl.{parse_tracker_url}
use ytorrent.Tracker.Response.{Answer, refused, answered, Exchange, Decoder, http_request}
use ytorrent.Torrent.Connect.{connect_to_peers}
use ytorrent.Tracker.Effect.{Contacts, http_request-Contacts}
use ytorrent.Tracker.Announce.{
  Tracker, Program, is_next_request_due, is_empty, keep_answer, write_request, query,
  install_tracker, validate_tracker, query_main_tracker, new_tracker,
}
use ytorrent.Download.{
  IoEvent, read_done, write_done, resolve_done, connect_done, accept_done, accept_failed,
  accept_one, fail_accept, io_step, io_run, Round, poll, disconnect_all, stop_acceptor,
  disconnect_peers, download_loop,
}

-- What is said of a program is said of its client.
abbrev pub OfClient : (Client → Type 0) → Program → Type 0
OfClient P p = P p.client

abbrev pub Kept : {A : Type 0} → (Client → Type 0) → A × Program → Type 0
Kept P r = P r.1.client

-- After the loop, whether it was left: the invariant holds, and if it was, all pieces are there.
abbrev pub Left : (Client → Type 0) → ℕ → Bool × Program → Type 0
Left P needed r = P r.1.client × (r.0 ≡ true → r.1.client.torrent.completed_pieces ≡ needed)

module _ (platform : Platform) (P : Client → Type 0)
    (on_step : (ev : Event) (c : Client) → P c → Ensures P (step platform ev c))
    (on_disconnect : (q : ℕ) (c : Client) → P c → P (disconnect q c)) where
  accept_one-OfClient :
      (ip : ℕ) (a : Option Acceptor) (p : Program) → P p.client → P (accept_one ip a p).client
  unfolding accept_one step
  accept_one-OfClient ip none p v = v
  accept_one-OfClient ip (some a) p v =
      if-elim (OfClient P) (a.accepts == 0) v (on_step (accepted ip) p.client v)

  fail_accept-OfClient :
      (a : Option Acceptor) (p : Program) → P p.client → P (fail_accept a p).client
  unfolding fail_accept
  fail_accept-OfClient none p v = v
  fail_accept-OfClient (some a) p v = if-elim (OfClient P) (a.accepts == 0) v v

  io_step-OfClient :
      (e : IoEvent) (p : Program) → P p.client → Ensures (OfClient P) (io_step platform e p)
  unfolding io_step step
  io_step-OfClient (read_done q e bytes) p v =
      Ensures-then P (OfClient P) (step platform (client_read q e bytes) p.client) _
        (on_step (client_read q e bytes) p.client v) (λ c w. w)
  io_step-OfClient (write_done q e) p v = on_step (client_wrote q e) p.client v
  io_step-OfClient (resolve_done q e) p v = on_step (client_resolved q e) p.client v
  io_step-OfClient (connect_done q e ip) p v = on_step (client_connected q e ip) p.client v
  io_step-OfClient (accept_done ip) p v = accept_one-OfClient ip p.acceptor p v
  io_step-OfClient accept_failed p v = fail_accept-OfClient p.acceptor p v

  pub io_run-OfClient :
      (es : List IoEvent) (p : Program) → P p.client → Ensures (OfClient P) (io_run platform es p)
  unfolding io_run
  io_run-OfClient [] p v = v
  io_run-OfClient (e ∷ es) p v =
      Ensures-then (OfClient P) (OfClient P) (io_step platform e p) _ (io_step-OfClient e p v)
        (λ p' w. io_run-OfClient es p' w)

  http_request-Kept :
      (decode : Decoder) (x : Exchange) (event : TrackerEvent) (c : Client)
      → P c
      → Ensures (λ (r : Answer × Client). P r.1) (http_request decode x event c)
  unfolding step
  http_request-Kept decode x event c v =
      Ensures-map (Contacts event c) (λ (r : Answer × Client). P r.1)
        (http_request decode x event c) (λ (answer, d) e. contacted d e)
        (http_request-Contacts decode event c x)
    where
      contacted :
          {A : Type 0} (d : Client)
          → (d ≡ c) ⊎ (A × (peers : List ℕ) × (connect_to_peers peers c ≡ done d))
          → P d
      contacted d (inl e) = subst P (sym e) v
      contacted d (inr (may, peers, e)) =
          Ensures-done P (connect_to_peers peers c) e (on_step (tracker_answered peers) c v)

  keep_answer-Kept :
      (now : ℕ) (t : Tracker) (p : Program) (a : Answer) (c : Client)
      → P c
      → P (keep_answer now t p (a, c)).2.client
  unfolding keep_answer
  keep_answer-Kept now t p (refused e) c v = v
  keep_answer-Kept now t p (answered interval) c v = v

  query-Kept :
      (decode : Decoder) (x : Exchange) (now : ℕ) (q : TrackerQuery) (t : Tracker) (p : Program)
      → P p.client
      → Ensures (λ (r : Bool × Tracker × Program). P r.2.client) (query decode x now q t p)
  unfolding query
  query-Kept decode x now q t p v =
      Ensures-then (λ (r : Answer × Client). P r.1) _ (http_request decode x q.event p.client) _
        (http_request-Kept decode x q.event p.client v)
        λ (a, c) w. keep_answer-Kept now t (write_request x t q p) a c w

  install_tracker-Kept :
      (r : Bool × Tracker × Program) → P r.2.client → P (install_tracker r).1.client
  unfolding install_tracker
  install_tracker-Kept (false, t, p) v = v
  install_tracker-Kept (true, t, p) v = v

  pub validate_tracker-Kept :
      (decode : Decoder) (x : Exchange) (now : ℕ) (url : List ℕ) (q : TrackerQuery) (port : ℕ)
      (p : Program)
      → P p.client
      → Ensures (Kept P) (validate_tracker decode x now url q port p)
  unfolding validate_tracker
  validate_tracker-Kept decode x now url q port p v =
      if-elim (Ensures (Kept P)) (is_empty (parse_tracker_url url).host) v (
        Ensures-then (λ (r : Bool × Tracker × Program). P r.2.client) (Kept P)
          (query decode x now q (new_tracker port (parse_tracker_url url)) p) _
          (query-Kept decode x now q (new_tracker port (parse_tracker_url url)) p v)
          λ r w. install_tracker-Kept r w)

  query_main_tracker-OfClient :
      (decode : Decoder) (x : Exchange) (now : ℕ) (event : TrackerEvent) (t : Option Tracker)
      (p : Program)
      → P p.client
      → Ensures (OfClient P) (query_main_tracker decode x now event t p)
  unfolding query_main_tracker
  query_main_tracker-OfClient decode x now event none p v = tt
  query_main_tracker-OfClient decode x now event (some t) p v =
      >>=-Ensures (OfClient P) (build_tracker_query event p.client.torrent) _ λ q e.
        Ensures-then (λ (r : Bool × Tracker × Program). P r.2.client) (OfClient P)
          (query decode x now q t p) _ (query-Kept decode x now q t p v) λ (b, t', p') w. w

  pub poll-OfClient :
      (decode : Decoder) (event : TrackerEvent) (r : Round) (t : Option Tracker) (p : Program)
      → P p.client
      → Ensures (OfClient P) (poll decode event r t p)
  unfolding poll
  poll-OfClient decode event r none p v = tt
  poll-OfClient decode event r (some t) p v =
      if-elim (Ensures (OfClient P)) (is_next_request_due r.now t)
        (query_main_tracker-OfClient decode r.exchange r.now event (some t) p v) v

  disconnect_all-keeps : (qs : List ℕ) (c : Client) → P c → P (disconnect_all qs c)
  unfolding disconnect_all
  disconnect_all-keeps [] c v = v
  disconnect_all-keeps (q ∷ qs) c v = disconnect_all-keeps qs (disconnect q c) (on_disconnect q c v)

  stop_acceptor-OfClient :
      (a : Option Acceptor) (p : Program) → P p.client → P (stop_acceptor a p).client
  unfolding stop_acceptor
  stop_acceptor-OfClient none p v = v
  stop_acceptor-OfClient (some a) p v = v

  pub disconnect_peers-OfClient : (p : Program) → P p.client → P (disconnect_peers p).client
  unfolding disconnect_peers
  disconnect_peers-OfClient p v =
      let p' = stop_acceptor p.acceptor p in
      disconnect_all-keeps p'.client.torrent.active_peers p'.client
        (stop_acceptor-OfClient p.acceptor p v)

  -- The loop is left with the pieces that it waited for.
  pub download_loop-Left :
      (decode : Decoder) (needed : ℕ) (rs : List Round) (p : Program)
      → P p.client
      → Ensures (Left P needed) (download_loop platform decode needed rs p)
  unfolding download_loop
  download_loop-Left decode needed [] p v =
      (v, λ e. same_of_test p.client.torrent.completed_pieces needed e)
  download_loop-Left decode needed (r ∷ rs) p v =
      if-cases (Ensures (Left P needed)) (p.client.torrent.completed_pieces == needed)
        (λ e. (v, λ _. same_of_test p.client.torrent.completed_pieces needed e))
        (λ _.
          Ensures-then (OfClient P) (Left P needed) (poll decode no_event r p.main_tracker p) _
            (poll-OfClient decode no_event r p.main_tracker p v)
            λ p1 v1.
              Ensures-then (OfClient P) (Left P needed) (io_run platform r.events p1) _
                (io_run-OfClient r.events p1 v1) λ p2 v2. download_loop-Left decode needed rs p2 v2)
