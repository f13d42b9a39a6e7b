-- ===== src/Download/Complete.antt =====
-- What a call of download or seed of src/torrent/torrent.cpp comes to.
use ytorrent.Base.{
  ℕ, zero, suc, ◌%◌, ◌≡◌, refl, sym, ap, subst, ◌∙◌, inl, inr, List, [], ◌∷◌, Option, some, none,
  Bool, true, false, not, if-elim, Bool-cases, test_of_same, length, get_elem?, arith, done,
  Ensures, Ensures-done, Ensures-then, Ensures-both, >>=-Ensures,
}
use ytorrent.Net.Acceptor.{Acceptor, initiate_async_accept_loop}
use ytorrent.Client.{Client, Torrent, Piece, Platform, max_block_request_size}
use ytorrent.Events.{Event, step}
use ytorrent.Torrent.Swarm.{disconnect}
use ytorrent.Torrent.Query.{
  TrackerEvent, TrackerQuery, sum_finished, build_tracker_query, none as no_event,
  completed as completed_event, started as started_event, stopped as stopped_event,
}
use ytorrent.Tracker.Response.{Answer, refused, answered, Exchange, Decoder, http_request}
use ytorrent.Tracker.Effect.{Contacts, http_request-Contacts}
use ytorrent.Tracker.Announce.{
  Tracker, Program, keep_answer, write_request, query, validate_tracker, query_main_tracker,
}
use ytorrent.Soundness.{Sound, count_finished}
use ytorrent.Soundness.Store.{count_finished-le}
use ytorrent.Soundness.Peers.{disconnect-Sound}
use ytorrent.Soundness.Run.{step-Sound}
use ytorrent.Machine.{Moves, stay}
use ytorrent.Machine.Run.{step-Moved}
use ytorrent.Machine.Pieces.{Moved, disconnect-Moved}
use ytorrent.Machine.Progress.{Later-length, Moves-Advances}
use ytorrent.Download.{
  Round, Environment, set_acceptor, disconnect_all, stop_acceptor, disconnect_peers, DownloadError,
  completed, tracker_query_failure, network_error, download_loop, open_acceptor, report_end,
  finish_download, leave_loop, start_download, download,
}
use ytorrent.Download.Invariant.{
  Kept, Left, download_loop-Left, disconnect_peers-OfClient, validate_tracker-Kept,
}

-- The announces that contact nobody.
abbrev IsLast : TrackerEvent → Type 0
IsLast no_event = ⊥
IsLast started_event = ⊥
IsLast completed_event = Unit
IsLast stopped_event = Unit

keep_answer-client :
    (event : TrackerEvent) (now : ℕ) (t : Tracker) (p : Program) (a : Answer) (c d : Client)
    → IsLast event
    → Contacts event c (a, d)
    → (keep_answer now t p (a, d)).2.client ≡ c
unfolding keep_answer
keep_answer-client event now t p (refused e) c d last (inl same) = same
keep_answer-client event now t p (answered n) c d last (inl same) = same
keep_answer-client event now t p (refused e) c d last (inr (may, _, _)) = absurd may
keep_answer-client no_event now t p (answered n) c d last (inr _) = absurd last
keep_answer-client started_event now t p (answered n) c d last (inr _) = absurd last
keep_answer-client completed_event now t p (answered n) c d last (inr (may, _, _)) = absurd may
keep_answer-client stopped_event now t p (answered n) c d last (inr (may, _, _)) = absurd may

build_tracker_query-event :
    (event : TrackerEvent) (t : Torrent)
    → Ensures (λ (q : TrackerQuery). q.event ≡ event) (build_tracker_query event t)
unfolding build_tracker_query
build_tracker_query-event event t =
    >>=-Ensures (λ (q : TrackerQuery). q.event ≡ event) (sum_finished t 0 t.pieces 0) _ λ _ _. refl

query-client :
    (decode : Decoder) (x : Exchange) (now : ℕ) (q : TrackerQuery) (t : Tracker) (p : Program)
    → IsLast q.event
    → Ensures (λ (r : Bool × Tracker × Program). r.2.client ≡ p.client) (query decode x now q t p)
unfolding query
query-client decode x now q t p last =
    Ensures-then (Contacts q.event p.client)
      (λ (r : Bool × Tracker × Program). r.2.client ≡ p.client)
      (http_request decode x q.event p.client) _ (http_request-Contacts decode q.event p.client x)
      λ (a, d) e. keep_answer-client q.event now t (write_request x t q p) a p.client d last e

query_main_tracker-client :
    (decode : Decoder) (x : Exchange) (now : ℕ) (event : TrackerEvent) (t : Option Tracker)
    (p : Program)
    → IsLast event
    → Ensures (λ (r : Program). r.client ≡ p.client) (query_main_tracker decode x now event t p)
unfolding query_main_tracker
query_main_tracker-client decode x now event none p last = tt
query_main_tracker-client decode x now event (some t) p last =
    let P = λ (r : Program). r.client ≡ p.client in
    Ensures-then (λ (q : TrackerQuery). q.event ≡ event) P
      (build_tracker_query event p.client.torrent) _
      (build_tracker_query-event event p.client.torrent)
      λ q e.
        Ensures-then (λ (r : Bool × Tracker × Program). r.2.client ≡ p.client) P
          (query decode x now q t p) _ (query-client decode x now q t p (subst IsLast (sym e) last))
          λ (b, t', p') same. same

disconnect_all-torrent : (qs : List ℕ) (c : Client) → (disconnect_all qs c).torrent ≡ c.torrent
unfolding disconnect_all disconnect
disconnect_all-torrent [] c = refl
disconnect_all-torrent (q ∷ qs) c = disconnect_all-torrent qs (disconnect q c)

disconnect_peers-torrent : (p : Program) → (disconnect_peers p).client.torrent ≡ p.client.torrent
unfolding disconnect_peers stop_acceptor
disconnect_peers-torrent p = after p.acceptor
  where
    after :
        (a : Option Acceptor)
        → let c = (stop_acceptor a p).client in
          (disconnect_all c.torrent.active_peers c).torrent ≡ p.client.torrent
    after none = disconnect_all-torrent p.client.torrent.active_peers p.client
    after (some a) = disconnect_all-torrent p.client.torrent.active_peers p.client

-- All pieces are finished.
abbrev pub AllFinished : List Piece → Type 0
AllFinished ps = (i : ℕ) (q : Piece) → get_elem? ps i ≡ some q → q.finished ≡ true

count_finished-AllFinished : (ps : List Piece) → count_finished ps ≡ length ps → AllFinished ps
count_finished-AllFinished [] e i q f = absurd (cc f)
count_finished-AllFinished (p ∷ ps) e zero q f =
    let same : p ≡ q = cc in
    let le = count_finished-le ps in
    ap (λ (x : Piece). x.finished) (sym same)
    ∙ elim (Bool-cases p.finished) [ inl h ↦ h | inr h ↦ absurd (omega (arith, le, (rw h at e))) ]
count_finished-AllFinished (p ∷ ps) e (suc i) q f =
    count_finished-AllFinished ps
      (let le = count_finished-le ps in
        elim (Bool-cases p.finished) [
          | inl h ↦ omega (arith, (rw h at e))
          | inr h ↦ absurd (omega (arith, le, (rw h at e)))
        ])
      i q f

module _ (platform : Platform) (spacing : ℕ) (start : Torrent) where
  -- The client is sound, and its torrent is reached from `start`.
  abbrev pub Good : Client → Type 0
  Good c = Sound platform spacing c × Moves platform start c.torrent

  pub Good-disconnect : (q : ℕ) (c : Client) → Good c → Good (disconnect q c)
  Good-disconnect q c v =
      (disconnect-Sound platform spacing q c v.0, disconnect-Moved platform start q c v.1)

  -- All pieces of a sound torrent that has counted as many as it had at the start are finished.
  Good-AllFinished :
      (c : Client)
      → Good c
      → c.torrent.completed_pieces ≡ length start.pieces
      → AllFinished c.torrent.pieces
  Good-AllFinished c v e = count_finished-AllFinished c.torrent.pieces (
      sym v.0.0.counted
      ∙ e
      ∙ sym (
          Later-length start.pieces c.torrent.pieces
            (Moves-Advances platform start c.torrent v.1).later))

  -- What a download that has returned comes to.
  abbrev pub Ended : Option DownloadError × Program → Type 0
  Ended (none, p) = Good p.client
  Ended (some completed, p) = Good p.client × AllFinished p.client.torrent.pieces
  Ended (some tracker_query_failure, p) = Good p.client
  Ended (some network_error, p) = ⊥

  -- With all pieces there, the result is `completed`.
  report_end-Ended :
      (decode : Decoder) (last : Round) (p : Program)
      → Good p.client
      → p.client.torrent.completed_pieces ≡ length start.pieces
      → Ensures
          (λ (r : DownloadError × Program). Ended (some (r.0), r.1))
          (report_end decode (length start.pieces) last p)
  unfolding report_end
  report_end-Ended decode last p v e =
      rw (test_of_same p.client.torrent.completed_pieces (length start.pieces) e) (
        Ensures-then (λ (r : Program). r.client ≡ p.client)
          (λ (r : DownloadError × Program). Ended (some (r.0), r.1))
          (query_main_tracker decode last.exchange last.now completed_event p.main_tracker p) _
          (query_main_tracker-client decode last.exchange last.now completed_event p.main_tracker p
            tt)
          λ p' same.
            subst (λ (c : Client). Good c × AllFinished c.torrent.pieces) (sym same)
              (v, Good-AllFinished p.client v e))

  module _ (aligned : spacing % max_block_request_size ≡ 0) where
    pub Good-step : (ev : Event) (c : Client) → Good c → Ensures Good (step platform ev c)
    Good-step ev c v =
        Ensures-both (Sound platform spacing) (Moved platform start) (step platform ev c)
          (step-Sound platform spacing aligned ev c v.0) (step-Moved platform start ev c v.1)

    finish_download-Ended :
        (decode : Decoder) (seed_after : Bool) (last : Round) (p : Program)
        → Good p.client
        → p.client.torrent.completed_pieces ≡ length start.pieces
        → Ensures
            (λ (r : DownloadError × Program). Ended (some (r.0), r.1))
            (finish_download decode (length start.pieces) seed_after last p)
    unfolding finish_download
    finish_download-Ended decode seed_after last p v e =
        if-elim
          (λ (p1 : Program).
            Ensures (λ (r : DownloadError × Program). Ended (some (r.0), r.1))
              (report_end decode (length start.pieces) last p1))
          (not seed_after)
          (report_end-Ended decode last (disconnect_peers p)
            (disconnect_peers-OfClient platform Good Good-step Good-disconnect p v)
            (ap (λ (t : Torrent). t.completed_pieces) (disconnect_peers-torrent p) ∙ e))
          (report_end-Ended decode last p v e)

    leave_loop-Ended :
        (decode : Decoder) (seed_after : Bool) (last : Round) (r : Bool × Program)
        → Left Good (length start.pieces) r
        → Ensures Ended (leave_loop decode (length start.pieces) seed_after last r)
    unfolding leave_loop
    leave_loop-Ended decode seed_after last (false, p) v = v.0
    leave_loop-Ended decode seed_after last (true, p) v =
        Ensures-then (λ (r : DownloadError × Program). Ended (some (r.0), r.1)) Ended
          (finish_download decode (length start.pieces) seed_after last p) _
          (finish_download-Ended decode seed_after last p v.0 (v.1 refl)) λ (error, p') h. h

    start_download-Ended :
        (decode : Decoder) (env : Environment) (port : ℕ) (seed_after : Bool) (r : Bool × Program)
        → Kept Good r
        → Ensures Ended (start_download platform decode env port seed_after (length start.pieces) r)
    unfolding start_download
    start_download-Ended decode env port seed_after (false, p) v = v
    start_download-Ended decode env port seed_after (true, p) v =
        >>=-Ensures Ended (open_acceptor env.port_is_free port p.acceptor) _ λ a e.
          Ensures-then (Left Good (length start.pieces)) Ended
            (download_loop platform decode (length start.pieces) env.rounds
              (set_acceptor (initiate_async_accept_loop a) p))
            _
            (download_loop-Left platform Good Good-step Good-disconnect decode (length start.pieces)
              env.rounds (set_acceptor (initiate_async_accept_loop a) p) v)
            λ r left. leave_loop-Ended decode seed_after env.last r left

pub download-Ensures :
    (platform : Platform) (spacing : ℕ) (decode : Decoder) (env : Environment) (port : ℕ)
    (seed_after : Bool) (p : Program)
    → spacing % max_block_request_size ≡ 0
    → Sound platform spacing p.client
    → Ensures
        (Ended platform spacing p.client.torrent)
        (download platform decode env port seed_after p)
unfolding download
download-Ensures platform spacing decode env port seed_after p aligned v =
    let E = Ended platform spacing p.client.torrent in
    let G = Good platform spacing p.client.torrent in
    let step = Good-step platform spacing p.client.torrent aligned in
    let gone = Good-disconnect platform spacing p.client.torrent in
    >>=-Ensures E (build_tracker_query started_event p.client.torrent) _ λ q _.
      Ensures-then (Kept G) E
        (validate_tracker decode env.first.exchange env.first.now p.client.torrent.main_tracker_url
          q port p)
        _
        (validate_tracker-Kept platform G step gone decode env.first.exchange env.first.now
          p.client.torrent.main_tracker_url q port p (v, stay))
        λ r w.
          start_download-Ended platform spacing p.client.torrent aligned decode env port seed_after
            r w

-- A download of a sound client that has returned, or is still in its loop, leaves a sound client, whatever
-- the tracker, the peers and the network did. It has not returned NetworkError, and where it returned
-- Completed, every piece is finished. The piece length is a multiple of 16 KiB.
pub download-Ended :
    (platform : Platform) (spacing : ℕ) (decode : Decoder) (env : Environment) (port : ℕ)
    (seed_after : Bool) (p p' : Program) (r : Option DownloadError)
    → spacing % max_block_request_size ≡ 0
    → Sound platform spacing p.client
    → download platform decode env port seed_after p ≡ done (r, p')
    → Ended platform spacing p.client.torrent (r, p')
download-Ended platform spacing decode env port seed_after p p' r aligned v e =
    Ensures-done (Ended platform spacing p.client.torrent)
      (download platform decode env port seed_after p) e
      (download-Ensures platform spacing decode env port seed_after p aligned v)
