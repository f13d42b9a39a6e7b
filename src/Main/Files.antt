-- ===== src/Main/Files.antt =====
-- What is on the disk when src/main.cpp has ended.
use ytorrent.Base.{
  ℕ, zero, suc, ◌+◌, ◌*◌, ◌%◌, ◌^◌, ◌<◌, ◌≡◌, refl, subst, List, [], ◌∷◌, Option, some, none, true,
  false, if-elim, length, get_elem?, done, Ensures, Ensures-done, Ensures-then, Ensures-both,
  Ensures-map,
}
use ytorrent.Client.{Client, Torrent, Piece, Platform, new_peer, max_block_request_size}
use ytorrent.Events.{Event, step}
use ytorrent.Torrent.Swarm.{disconnect}
use ytorrent.Torrent.Parse.{success, Metainfo, FileSystem, new_torrent, parse_file}
use ytorrent.Tracker.Response.{Decoder}
use ytorrent.Tracker.Announce.{Program}
use ytorrent.Soundness.{SoundTorrent, HoldsPiece, file_bytes}
use ytorrent.Soundness.Start.{ParsesSound, parse_file-ParsesSound}
use ytorrent.Machine.{stay}
use ytorrent.Machine.Run.{step-Moved}
use ytorrent.Machine.Pieces.{Moved}
use ytorrent.Machine.Progress.{Later, Moves-Advances}
use ytorrent.Download.{
  Environment, DownloadError, completed, tracker_query_failure, network_error, download,
}
use ytorrent.Download.Invariant.{Kept}
use ytorrent.Download.Complete.{
  Good, Good-step, Good-disconnect, AllFinished, Ended, download-Ensures,
}
use ytorrent.Download.Seeding.{seed}
use ytorrent.Download.Seeding.Returns.{seed-Kept}
use ytorrent.Main.{
  CommandLine, Ending, exit, downloading, seeding, new_program, maybe_seed, after_download,
  after_parse, main,
}

-- A piece later on: the same hash, and it is still finished if it was.
Later-get_elem? :
    (ps qs : List Piece) (i : ℕ) {q : Piece}
    → Later ps qs
    → get_elem? ps i ≡ some q
    → (r : Piece) × (get_elem? qs i ≡ some r)
      × (r.hash ≡ q.hash)
      × (q.finished ≡ true → r.finished ≡ true)
Later-get_elem? [] qs i a e = absurd (cc e)
Later-get_elem? (p ∷ ps) [] i a e = absurd a
Later-get_elem? (p ∷ ps) (r ∷ rs) zero {q} a e =
    let same : p ≡ q = cc in
    let (hash, flag) =
      subst (λ (x : Piece). (r.hash ≡ x.hash) × (x.finished ≡ true → r.finished ≡ true)) same a.0 in
    (r, refl, hash, flag)
Later-get_elem? (p ∷ ps) (r ∷ rs) (suc i) a e = Later-get_elem? ps rs i a.1 e

Later-AllFinished : (ps qs : List Piece) → Later ps qs → AllFinished ps → AllFinished qs
Later-AllFinished [] [] a h i q e = h i q e
Later-AllFinished [] (r ∷ rs) a h i q e = absurd a
Later-AllFinished (p ∷ ps) [] a h i q e = absurd a
Later-AllFinished (p ∷ ps) (r ∷ rs) a h zero q e =
    let same : r ≡ q = cc in subst (λ (x : Piece). x.finished ≡ true) same (a.0.1 (h 0 p refl))
Later-AllFinished (p ∷ ps) (r ∷ rs) a h (suc i) q e =
    Later-AllFinished ps rs a.1 (λ j x f. h (suc j) x f) i q e

-- Each piece that the torrent file lists is in the file, at its place.
abbrev pub Downloaded : Platform → ℕ → Torrent → Client → Type 0
Downloaded platform spacing t c =
    (i : ℕ) (q : Piece)
    → get_elem? t.pieces i ≡ some q
    → HoldsPiece platform spacing (file_bytes c.torrent.file.fp) i q.hash

-- The process has everything if it ends without an error, or is seeding.
abbrev pub EndsWhole : Platform → ℕ → Torrent → Ending × Program → Type 0
EndsWhole platform spacing t (exit zero, p) = Downloaded platform spacing t p.client
EndsWhole platform spacing t (exit (suc _), p) = Unit
EndsWhole platform spacing t (downloading, p) = Unit
EndsWhole platform spacing t (seeding, p) = Downloaded platform spacing t p.client

module _ (platform : Platform) (spacing : ℕ) (start : Torrent)
    (aligned : spacing % max_block_request_size ≡ 0) where
  abbrev Whole : Client → Type 0
  Whole c = Good platform spacing start c × AllFinished c.torrent.pieces

  Whole-Downloaded : (c : Client) → Whole c → Downloaded platform spacing start c
  Whole-Downloaded c (good, all) i q e =
      let later = (Moves-Advances platform start c.torrent good.1).later in
      let (r, found, hash, _) = Later-get_elem? start.pieces c.torrent.pieces i later e in
      subst (λ (h : List ℕ). HoldsPiece platform spacing (file_bytes c.torrent.file.fp) i h) hash
        (good.0.0.stored i r found (all i r found))

  Whole-step : (ev : Event) (c : Client) → Whole c → Ensures Whole (step platform ev c)
  Whole-step ev c v =
      Ensures-map (λ d. Good platform spacing start d × Moved platform c.torrent d) Whole
        (step platform ev c)
        (λ d w. (
          w.0,
          Later-AllFinished c.torrent.pieces d.torrent.pieces
              (Moves-Advances platform c.torrent d.torrent w.1).later v.1,
        ))
        (Ensures-both (Good platform spacing start) (Moved platform c.torrent) (step platform ev c)
          (Good-step platform spacing start aligned ev c v.0)
          (step-Moved platform c.torrent ev c stay))

  Whole-disconnect : (q : ℕ) (c : Client) → Whole c → Whole (disconnect q c)
  unfolding disconnect
  Whole-disconnect q c v = (Good-disconnect platform spacing start q c v.0, v.1)

  abbrev E : Ending × Program → Type 0
  E = EndsWhole platform spacing start

  module _ (decode : Decoder) (env : Environment) (args : CommandLine) where
    maybe_seed-EndsWhole :
        (p : Program) → Whole p.client → Ensures E (maybe_seed platform decode env args p)
    unfolding maybe_seed
    maybe_seed-EndsWhole p v =
        if-elim (Ensures E) args.seed
          (Ensures-then (Kept Whole) E (seed platform decode env ((args.startport + 1) % 2 ^ 16) p)
            _
            (seed-Kept platform Whole Whole-step Whole-disconnect decode env
              ((args.startport + 1) % 2 ^ 16) p v)
            λ (returned, p') w.
              if-elim (λ (e : Ending). E (e, p')) returned (Whole-Downloaded p'.client w)
                (Whole-Downloaded p'.client w))
          (Whole-Downloaded p.client v)

    after_download-EndsWhole :
        (r : Option DownloadError × Program)
        → Ended platform spacing start r
        → Ensures E (after_download platform decode env args r)
    unfolding after_download
    after_download-EndsWhole (none, p) v = tt
    after_download-EndsWhole (some completed, p) v = maybe_seed-EndsWhole p v
    after_download-EndsWhole (some tracker_query_failure, p) v = tt
    after_download-EndsWhole (some network_error, p) v = tt

-- The command line that makes main download.
pub record Starts (args : CommandLine) : Type 0 where
  pub given : args.no_arguments ≡ false
  pub parsed : args.parses ≡ true
  pub no_help : args.help ≡ false
  pub no_version : args.version ≡ false
  pub a_torrent : args.torrent ≡ true
  pub a_log : args.log_opens ≡ true

main-Starts :
    (platform : Platform) (decode : Decoder) (fs : FileSystem) (m : Metainfo)
    (env env' : Environment) (args : CommandLine) (t : Torrent)
    → Starts args
    → parse_file platform fs m args.dir new_torrent ≡ done (success, t)
    → main platform decode fs m env env' args
      ≡ after_parse platform decode env env' args fs.opened (success, t)
unfolding main
main-Starts platform decode fs m env env' args t s e =
    rw (s.given, s.parsed, s.no_help, s.no_version, s.a_torrent, s.a_log, e) refl

main-Ensures :
    (platform : Platform) (decode : Decoder) (fs : FileSystem) (m : Metainfo)
    (env env' : Environment) (args : CommandLine) (spacing : ℕ) (t : Torrent)
    → Starts args
    → m.piece_length ≡ some spacing
    → spacing % max_block_request_size ≡ 0
    → parse_file platform fs m args.dir new_torrent ≡ done (success, t)
    → length t.pieces * spacing < 2 ^ 63
    → length t.pieces < 2 ^ 64
    → Ensures (EndsWhole platform spacing t) (main platform decode fs m env env' args)
unfolding after_parse new_program new_peer
main-Ensures platform decode fs m env env' args spacing t s e aligned parsed fits count =
    let sound : SoundTorrent platform spacing t =
      Ensures-done (ParsesSound platform spacing) (parse_file platform fs m args.dir new_torrent)
        parsed (parse_file-ParsesSound platform fs m spacing args.dir e) refl fits count in
    rw (main-Starts platform decode fs m env env' args t s parsed) (
      Ensures-then (Ended platform spacing t) (EndsWhole platform spacing t)
        (download platform decode env args.startport args.seed (new_program t fs.opened)) _
        (download-Ensures platform spacing decode env args.startport args.seed
          (new_program t fs.opened) aligned (sound, λ p. tt))
        λ r ended. after_download-EndsWhole platform spacing t aligned decode env' args r ended)

-- When main was given a torrent file that parses, and ends with exit code 0 or is seeding, then the file
-- holds, at the place of each piece that the torrent file lists, bytes whose SHA-1 digest is the listed
-- hash, whatever the tracker, the peers and the network did. The piece length is a multiple of 16 KiB, and
-- the file's size a long.
pub main-EndsWhole :
    (platform : Platform) (decode : Decoder) (fs : FileSystem) (m : Metainfo)
    (env env' : Environment) (args : CommandLine) (spacing : ℕ) (t : Torrent) (e : Ending)
    (p : Program)
    → Starts args
    → m.piece_length ≡ some spacing
    → spacing % max_block_request_size ≡ 0
    → parse_file platform fs m args.dir new_torrent ≡ done (success, t)
    → length t.pieces * spacing < 2 ^ 63
    → length t.pieces < 2 ^ 64
    → main platform decode fs m env env' args ≡ done (e, p)
    → EndsWhole platform spacing t (e, p)
main-EndsWhole platform decode fs m env env' args spacing t e p s same aligned parsed fits count
      ended =
    Ensures-done (EndsWhole platform spacing t) (main platform decode fs m env env' args) ended
      (main-Ensures platform decode fs m env env' args spacing t s same aligned parsed fits count)
