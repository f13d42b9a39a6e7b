-- ===== src/Soundness/Start.antt =====
-- A torrent that was just parsed is sound, and so the client that downloads it.
use ytorrent.Base.{
  ℕ, zero, suc, ◌+◌, ◌-◌, ◌*◌, ◌/◌, ◌%◌, ◌^◌, ◌<◌, ◌≡◌, refl, ap, sym, ◌∙◌, List, [], ◌∷◌, ◌++◌,
  Option, some, none, Bool, true, false, if◌then◌else◌, leb, length, map, replicate, take, drop,
  get_elem?, arith, done, Ensures, Ensures-done, Ensures-then, >>=-Ensures, if-elim,
}
use ytorrent.Net.Link.{new_connection}
use ytorrent.Client.{Client, Torrent, Piece, Stream, Platform, new_peer, max_block_request_size}
use ytorrent.Torrent.Parse.{
  ParseResult, success, Metainfo, FileSystem, new_torrent, value_of, read_pieces, parse_pieces,
  resize, read_metainfo, open_result, open_target, parse_file,
}
use ytorrent.Events.{Reach}
use ytorrent.Soundness.{SoundTorrent, Sound, count_finished}
use ytorrent.Soundness.Run.{Reach-Sound}

-- Every piece is still to be fetched.
abbrev Unfinished : List Piece → Type 0
Unfinished ps = (i : ℕ) (q : Piece) → get_elem? ps i ≡ some q → q.finished ≡ false

abbrev AllNew : List Piece → Type 0
AllNew ps =
    (count_finished ps ≡ 0)
    × (map (λ q. q.finished) ps ≡ replicate (length ps) false)
    × Unfinished ps

read_pieces-AllNew : (n : ℕ) (buffer : List ℕ) → Ensures AllNew (read_pieces n buffer)
unfolding read_pieces
read_pieces-AllNew zero buffer = (refl, refl, λ i q e. cc)
read_pieces-AllNew (suc n) buffer =
    if-elim (Ensures AllNew) (leb 20 (length buffer))
      (Ensures-then AllNew AllNew (read_pieces n (drop 20 buffer)) _
        (read_pieces-AllNew n (drop 20 buffer))
        λ ps h. (omega (arith, h.0), ap (◌∷◌ false) h.1, unfinished ps h.2))
      tt
  where
    unfinished :
        (ps : List Piece)
        → Unfinished ps
        → Unfinished (record { finished = false; priority = 0; hash = take 20 buffer } ∷ ps)
    unfinished ps h zero q e = ground arith
    unfinished ps h (suc i) q e = h i q e

-- What is known of the torrent before the files are opened.
record IsFresh (spacing : ℕ) (t : Torrent) : Type 0 where
  spaced : t.piece_length ≡ spacing
  nothing : t.completed_pieces ≡ 0
  new : AllNew t.pieces
  cleared : t.bitfield ≡ replicate (length t.pieces) false
  from_start : t.file.begin ≡ 0

take-nil : (n : ℕ) → take {A = Bool} n [] ≡ []
take-nil zero = refl
take-nil (suc n) = refl

resize-nil : (n : ℕ) → resize n [] ≡ replicate n false
unfolding resize
resize-nil n = let whole : n - 0 ≡ n = omega arith in rw (take-nil n, whole)

read_metainfo-IsFresh :
    (platform : Platform) (m : Metainfo) (dir : List ℕ) (spacing : ℕ)
    → m.piece_length ≡ some spacing
    → Ensures (IsFresh spacing) (read_metainfo platform m dir new_torrent)
unfolding read_metainfo parse_pieces new_torrent
read_metainfo-IsFresh platform m dir spacing e =
    let F = IsFresh spacing in
    >>=-Ensures F (value_of m.announce) _ λ url _. >>=-Ensures F (value_of m.info) _ λ info _.
      >>=-Ensures F (value_of m.name) _ λ name _.
        >>=-Ensures F (value_of m.piece_length) _ λ n known.
          >>=-Ensures F (value_of m.pieces) _ λ str _.
            Ensures-then AllNew F (read_pieces ((length str + 19) / 20) (str ++ 0 ∷ [])) _
              (read_pieces-AllNew _ _)
              λ ps new. record {
                spaced = same n (rw e at known);
                nothing = refl;
                new = new;
                cleared = resize-nil (length ps);
                from_start = refl;
              }
  where
    same : (n : ℕ) → done spacing ≡ done n → n ≡ spacing
    same n k = cc

-- A fresh torrent with an open file is sound.
IsFresh-SoundTorrent :
    (platform : Platform) (spacing size : ℕ) (s : Stream) (t : Torrent)
    → length t.pieces * spacing < 2 ^ 63
    → length t.pieces < 2 ^ 64
    → IsFresh spacing t
    → SoundTorrent platform spacing
        (record t { total_size = size; file = record { fp = some s; begin = 0; length = 0 } })
IsFresh-SoundTorrent platform spacing size s t fits count f = record {
  spaced = f.spaced;
  counted = f.nothing ∙ sym f.new.0;
  mirrored = f.cleared ∙ sym f.new.1;
  from_start = refl;
  addressable = fits;
  countable = count;
  stored = λ i q e finished.
      let clash : false ≡ true = sym (f.new.2 i q e) ∙ finished in absurd (cc clash);
}

-- The client with a parsed torrent, before it has met a peer.
abbrev pub start_client : Torrent → Client
start_client t = record {
  torrent = t;
  peers = λ p. new_peer new_connection;
  allocated = 0;
  disk = none;
  log = [];
}

-- A result of parseFile that reports success is a sound torrent, if its file is of a size that a long
-- can address.
abbrev pub ParsesSound : Platform → ℕ → ParseResult × Torrent → Type 0
ParsesSound platform spacing r =
    r.0 ≡ success
    → length r.1.pieces * spacing < 2 ^ 63
    → length r.1.pieces < 2 ^ 64
    → SoundTorrent platform spacing r.1

module _ (platform : Platform) (fs : FileSystem) (m : Metainfo) (spacing : ℕ) where
  open_result-ParsesSound :
      (o : Option Stream) (size : ℕ) (t : Torrent)
      → IsFresh spacing t
      → ParsesSound platform spacing (open_result o size t)
  unfolding open_result
  open_result-ParsesSound none size t f e fits count = absurd (cc e)
  open_result-ParsesSound (some s) size t f e fits count =
      IsFresh-SoundTorrent platform spacing size s t fits count f

  pub parse_file-ParsesSound :
      (dir : List ℕ)
      → m.piece_length ≡ some spacing
      → Ensures (ParsesSound platform spacing) (parse_file platform fs m dir new_torrent)
  unfolding parse_file open_target
  parse_file-ParsesSound dir e =
      let P = ParsesSound platform spacing in
      if-elim (Ensures P) fs.torrent_opens
        (Ensures-then (IsFresh spacing) P (read_metainfo platform m dir new_torrent) _
          (read_metainfo-IsFresh platform m dir spacing e)
          λ t f.
            if-elim (Ensures P) m.files (λ h _ _. absurd (cc h))
              (>>=-Ensures P (value_of m.length) _ λ size _.
                open_result-ParsesSound (if fs.node_exists then fs.opened else fs.created) size t
                  f))
        (λ h _ _. absurd (cc h))

-- From a torrent file that was parsed with success, through any sequence of events that the client
-- survives, the client is sound: the count of completed pieces, the bit field and the flags of the pieces
-- agree, and for each finished piece the file holds, at the place of the piece, bytes whose SHA-1 digest
-- is the hash in the torrent file. The piece length is a multiple of 16 KiB, and the file's size a long.
pub Reach-parse_file :
    (platform : Platform) (fs : FileSystem) (m : Metainfo) (dir : List ℕ) (spacing : ℕ)
    (t : Torrent) (d : Client)
    → m.piece_length ≡ some spacing
    → spacing % max_block_request_size ≡ 0
    → parse_file platform fs m dir new_torrent ≡ done (success, t)
    → length t.pieces * spacing < 2 ^ 63
    → length t.pieces < 2 ^ 64
    → Reach platform (start_client t) d
    → Sound platform spacing d
unfolding new_peer
Reach-parse_file platform fs m dir spacing t d e aligned parsed fits count r =
    Reach-Sound platform spacing aligned (start_client t) d
      (
        Ensures-done (ParsesSound platform spacing) (parse_file platform fs m dir new_torrent)
            parsed (parse_file-ParsesSound platform fs m spacing dir e) refl fits count,
        λ p. tt,
      )
      r
