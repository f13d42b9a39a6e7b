-- ===== src/Download/Accepts.antt =====
-- The accept loop of src/net/acceptor.cpp while src/torrent/torrent.cpp downloads and seeds: it goes on as
-- long as no accept fails, and never again after one has failed.
use ytorrent.Base.{
  ℕ, ◌≡◌, refl, sym, subst, List, Option, some, none, Bool, true, false, ◌==◌, arith, done, Ensures,
  Ensures-done, Ensures-then,
}
use ytorrent.Net.Acceptor.{
  Acceptor, new_acceptor, is_started, initiate_async_accept_loop, on_accepted, on_accept_error,
}
use ytorrent.Client.{Platform}
use ytorrent.Tracker.Response.{Decoder}
use ytorrent.Tracker.Announce.{Program}
use ytorrent.Download.{Round, set_acceptor, download_loop}
use ytorrent.Download.Seeding.{seed_loop, ensure_started, start_seeding}
use ytorrent.Download.Listening.{Has, AllAllowed, download_loop-Has, seed_loop-Has}

-- One accept is outstanding, on an open socket.
abbrev pub Listening : Acceptor → Type 0
Listening a = (a.started ≡ true) × (a.is_open ≡ true) × (a.accepts ≡ 1)

-- None is, though the flag says that the loop runs.
abbrev pub Deaf : Acceptor → Type 0
Deaf a = (a.started ≡ true) × (a.accepts ≡ 0)

on_accepted-Listening :
    (a : Acceptor) → Listening a → (a.accepts == 0) ≡ false → Listening (on_accepted a)
unfolding on_accepted initiate_async_accept_loop
on_accepted-Listening a (on, opened, one) e = rw opened (refl, refl, omega (arith, one))

initiate-Listening : (port : ℕ) → Listening (initiate_async_accept_loop (new_acceptor port))
unfolding initiate_async_accept_loop new_acceptor
initiate-Listening port = (refl, refl, refl)

no_accept : (a : Acceptor) → Deaf a → (a.accepts == 0) ≡ false → ⊥
no_accept a (on, none_asked) e = ground arith

-- Through the loop of download, whatever happens but a failed accept, exactly one accept is outstanding, on
-- a socket that is open: a peer can always connect, and no two accepts compete.
pub download_loop-Listening :
    (platform : Platform) (decode : Decoder) (needed port : ℕ) (rs : List Round) (p p' : Program)
    (left : Bool)
    → AllAllowed ⊥ rs
    → download_loop platform decode needed rs
        (set_acceptor (initiate_async_accept_loop (new_acceptor port)) p)
      ≡ done (left, p')
    → Has Listening p'.acceptor
download_loop-Listening platform decode needed port rs p p' left ok e =
    let start = set_acceptor (initiate_async_accept_loop (new_acceptor port)) p in
    Ensures-done (λ (r : Bool × Program). Has Listening r.1.acceptor)
      (download_loop platform decode needed rs start) e
      (download_loop-Has platform Listening ⊥ on_accepted-Listening (λ a no _ _. absurd no) decode
        needed rs start ok (initiate-Listening port))

ensure_started-Deaf :
    (o : Option Acceptor) (p : Program)
    → p.acceptor ≡ o
    → Has Deaf o
    → Ensures (λ (r : Program). Has Deaf r.acceptor) (ensure_started o p)
unfolding ensure_started is_started
ensure_started-Deaf none p e h = tt
ensure_started-Deaf (some a) p e (on, none_asked) =
    rw on (subst (Has Deaf) (sym e) (on, none_asked))

-- After an accept that failed, seeding never asks for another one, whatever happens: the flag stays set, so
-- the loop is not started again, and no peer can connect any more.
pub start_seeding-Deaf :
    (platform : Platform) (decode : Decoder) (rs : List Round) (a : Acceptor) (p p' : Program)
    (returned : Bool)
    → AllAllowed Unit rs
    → Listening a
    → p.acceptor ≡ some (on_accept_error a)
    → start_seeding platform decode rs (true, p) ≡ done (returned, p')
    → Has Deaf p'.acceptor
unfolding start_seeding on_accept_error
start_seeding-Deaf platform decode rs a p p' returned ok (on, opened, one) failed e =
    let deaf : Has Deaf p.acceptor = subst (Has Deaf) (sym failed) (on, omega (arith, one)) in
    Ensures-done (λ (r : Bool × Program). Has Deaf r.1.acceptor)
      (start_seeding platform decode rs (true, p)) e
      (Ensures-then (λ (r : Program). Has Deaf r.acceptor)
        (λ (r : Bool × Program). Has Deaf r.1.acceptor) (ensure_started p.acceptor p) _
        (ensure_started-Deaf p.acceptor p refl deaf)
        λ p1 h1.
          Ensures-then (λ (r : Program). Has Deaf r.acceptor)
            (λ (r : Bool × Program). Has Deaf r.1.acceptor) (seed_loop platform decode rs p1) _
            (seed_loop-Has platform Deaf Unit (λ b d some_asked. absurd (no_accept b d some_asked))
              (λ b _ d some_asked. absurd (no_accept b d some_asked)) decode rs p1 ok h1)
            λ p2 h2. h2)
