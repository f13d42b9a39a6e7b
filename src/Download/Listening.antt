-- ===== src/Download/Listening.antt =====
-- Whether peers can connect to us while download and seed of src/torrent/torrent.cpp are in their loops:
-- the accepts that src/net/acceptor.cpp has asked asio for.
use ytorrent.Base.{
  ℕ, ◌≡◌, refl, sym, subst, ◌∙◌, List, [], ◌∷◌, Option, some, none, Bool, false, ◌==◌, ◌&&◌,
  if-elim, if-cases, All, Ensures, Ensures-then, Ensures-map, >>=-Ensures,
}
use ytorrent.Net.Acceptor.{Acceptor, on_accepted, on_accept_error}
use ytorrent.Client.{Client, Platform}
use ytorrent.Session.{on_read}
use ytorrent.Torrent.Query.{
  TrackerEvent, TrackerQuery, build_tracker_query, none as no_event, completed as completed_event,
}
use ytorrent.Tracker.Response.{Answer, refused, answered, Exchange, Decoder, http_request}
use ytorrent.Tracker.Announce.{
  Tracker, Program, is_next_request_due, keep_answer, write_request, query, query_main_tracker,
}
use ytorrent.Download.{
  IoEvent, read_done, write_done, resolve_done, connect_done, accept_done, accept_failed,
  accept_one, fail_accept, io_step, io_run, Round, poll, download_loop,
}
use ytorrent.Download.Seeding.{seed_loop}

-- There is an acceptor, and it satisfies `Q`.
abbrev pub Has : (Acceptor → Type 0) → Option Acceptor → Type 0
Has Q none = ⊥
Has Q (some a) = Q a

-- A call of the tracker leaves the acceptor alone.
write_request-acceptor :
    (x : Exchange) (t : Tracker) (q : TrackerQuery) (p : Program)
    → (write_request x t q p).acceptor ≡ p.acceptor
unfolding write_request
write_request-acceptor x t q p =
    if-elim (λ (r : Program). r.acceptor ≡ p.acceptor) (x.resolved && x.connected) refl refl

keep_answer-acceptor :
    (now : ℕ) (t : Tracker) (p : Program) (r : Answer × Client)
    → (keep_answer now t p r).2.acceptor ≡ p.acceptor
unfolding keep_answer
keep_answer-acceptor now t p (refused e, c) = refl
keep_answer-acceptor now t p (answered n, c) = refl

query_main_tracker-acceptor :
    (decode : Decoder) (x : Exchange) (now : ℕ) (event : TrackerEvent) (t : Option Tracker)
    (p : Program)
    → Ensures (λ (r : Program). r.acceptor ≡ p.acceptor) (query_main_tracker decode x now event t p)
unfolding query_main_tracker query
query_main_tracker-acceptor decode x now event none p = tt
query_main_tracker-acceptor decode x now event (some t) p =
    let P = λ (r : Program). r.acceptor ≡ p.acceptor in
    let Q = λ (r : Bool × Tracker × Program). r.2.acceptor ≡ p.acceptor in
    >>=-Ensures P (build_tracker_query event p.client.torrent) _ λ q _.
      Ensures-then Q P (query decode x now q t p) _
        (>>=-Ensures Q (http_request decode x q.event p.client) _ λ r _.
          keep_answer-acceptor now t (write_request x t q p) r ∙ write_request-acceptor x t q p)
        λ (b, t', p') e. e

poll-acceptor :
    (decode : Decoder) (event : TrackerEvent) (r : Round) (t : Option Tracker) (p : Program)
    → Ensures (λ (p' : Program). p'.acceptor ≡ p.acceptor) (poll decode event r t p)
unfolding poll
poll-acceptor decode event r none p = tt
poll-acceptor decode event r (some t) p =
    if-elim (Ensures (λ (p' : Program). p'.acceptor ≡ p.acceptor)) (is_next_request_due r.now t)
      (query_main_tracker-acceptor decode r.exchange r.now event (some t) p) refl

-- What may happen in a run where an accept may fail, or may not.
abbrev pub Allowed : Type 0 → IoEvent → Type 0
Allowed MayFail (read_done q e bytes) = Unit
Allowed MayFail (write_done q e) = Unit
Allowed MayFail (resolve_done q e) = Unit
Allowed MayFail (connect_done q e ip) = Unit
Allowed MayFail (accept_done ip) = Unit
Allowed MayFail accept_failed = MayFail

abbrev pub AllAllowed : Type 0 → List Round → Type 0
AllAllowed MayFail rs = All (λ (r : Round). All (Allowed MayFail) r.events) rs

-- `Q` is kept by an accept that was asked for, and by a failed one where those are allowed.
module _ (platform : Platform) (Q : Acceptor → Type 0) (MayFail : Type 0)
    (on_ok : (a : Acceptor) → Q a → (a.accepts == 0) ≡ false → Q (on_accepted a))
    (on_fail : (a : Acceptor)
      → MayFail
      → Q a
      → (a.accepts == 0) ≡ false
      → Q (on_accept_error a)) where
  abbrev H : Program → Type 0
  H p = Has Q p.acceptor

  accept_one-Has :
      (ip : ℕ) (o : Option Acceptor) (p : Program)
      → p.acceptor ≡ o
      → Has Q o
      → H (accept_one ip o p)
  unfolding accept_one
  accept_one-Has ip none p e h = absurd h
  accept_one-Has ip (some a) p e h =
      if-cases H (a.accepts == 0) (λ _. subst (Has Q) (sym e) h)
        (λ some_asked. on_ok a h some_asked)

  fail_accept-Has :
      (o : Option Acceptor) (p : Program) → MayFail → p.acceptor ≡ o → Has Q o → H (fail_accept o p)
  unfolding fail_accept
  fail_accept-Has none p may e h = absurd h
  fail_accept-Has (some a) p may e h =
      if-cases H (a.accepts == 0) (λ _. subst (Has Q) (sym e) h)
        (λ some_asked. on_fail a may h some_asked)

  io_step-Has :
      (e : IoEvent) (p : Program) → Allowed MayFail e → H p → Ensures H (io_step platform e p)
  unfolding io_step
  io_step-Has (read_done q e bytes) p ok h =
      >>=-Ensures H (on_read platform q e bytes p.client) _ λ c _. h
  io_step-Has (write_done q e) p ok h = h
  io_step-Has (resolve_done q e) p ok h = h
  io_step-Has (connect_done q e ip) p ok h = h
  io_step-Has (accept_done ip) p ok h = accept_one-Has ip p.acceptor p refl h
  io_step-Has accept_failed p ok h = fail_accept-Has p.acceptor p ok refl h

  io_run-Has :
      (es : List IoEvent) (p : Program)
      → All (Allowed MayFail) es
      → H p
      → Ensures H (io_run platform es p)
  unfolding io_run
  io_run-Has [] p ok h = h
  io_run-Has (e ∷ es) p ok h =
      Ensures-then H H (io_step platform e p) _ (io_step-Has e p ok.0 h)
        (λ p' w. io_run-Has es p' ok.1 w)

  round-Has :
      (decode : Decoder) (event : TrackerEvent) (r : Round) (p : Program)
      → H p
      → Ensures H (poll decode event r p.main_tracker p)
  round-Has decode event r p h =
      Ensures-map (λ (p' : Program). p'.acceptor ≡ p.acceptor) H
        (poll decode event r p.main_tracker p) (λ p' e. subst (Has Q) (sym e) h)
        (poll-acceptor decode event r p.main_tracker p)

  pub download_loop-Has :
      (decode : Decoder) (needed : ℕ) (rs : List Round) (p : Program)
      → AllAllowed MayFail rs
      → H p
      → Ensures (λ (r : Bool × Program). H r.1) (download_loop platform decode needed rs p)
  unfolding download_loop
  download_loop-Has decode needed [] p ok h = h
  download_loop-Has decode needed (r ∷ rs) p ok h =
      if-elim (Ensures (λ (r : Bool × Program). H r.1))
        (p.client.torrent.completed_pieces == needed) h
        (Ensures-then H (λ (r : Bool × Program). H r.1) (poll decode no_event r p.main_tracker p) _
          (round-Has decode no_event r p h)
          λ p1 h1.
            Ensures-then H (λ (r : Bool × Program). H r.1) (io_run platform r.events p1) _
              (io_run-Has r.events p1 ok.0 h1)
              λ p2 h2. download_loop-Has decode needed rs p2 ok.1 h2)

  pub seed_loop-Has :
      (decode : Decoder) (rs : List Round) (p : Program)
      → AllAllowed MayFail rs
      → H p
      → Ensures H (seed_loop platform decode rs p)
  unfolding seed_loop
  seed_loop-Has decode [] p ok h = h
  seed_loop-Has decode (r ∷ rs) p ok h =
      Ensures-then H H (poll decode completed_event r p.main_tracker p) _
        (round-Has decode completed_event r p h)
        λ p1 h1.
          Ensures-then H H (io_run platform r.events p1) _ (io_run-Has r.events p1 ok.0 h1)
            λ p2 h2. seed_loop-Has decode rs p2 ok.1 h2
