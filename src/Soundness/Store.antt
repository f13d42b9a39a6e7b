-- ===== src/Soundness/Store.antt =====
-- A piece whose hash matches is written to its place, and the books stay right.
use ytorrent.Base.{
  ℕ, zero, suc, ◌+◌, ◌-◌, ◌*◌, ◌%◌, ◌^◌, ◌≤◌, ◌<◌, min, ◌≡◌, refl, ap, sym, ◌∙◌, subst, List, [],
  ◌∷◌, Option, some, none, Bool, true, false, ◌≢◌, length, map, set, get_elem?, take_all, arith,
  dec_lt, ℕ_discrete, done, >>=-Ensures, Ensures, Ensures-done,
}
use ytorrent.Client.{Torrent, Piece, Stream, Platform, File}
use ytorrent.Torrent.Sizes.{digest_bytes, bytes_equal, hash_matches, check_piece_hash}
use ytorrent.Torrent.Disk.{fseek, fwrite, overwrite}
use ytorrent.Torrent.Select.{modify_piece}
use ytorrent.Torrent.Store.{
  file_offset, stream_of, seek_or_throw, all_or_throw, write_piece, set_bit, count_piece,
  accept_piece,
}
use ytorrent.Soundness.{Books, SoundTorrent, Stored, HoldsPiece, file_bytes, count_finished}
use ytorrent.Soundness.Lookup.{
  get_elem?-below, get_elem?-within, overwrite_before, overwrite_inside, overwrite_after,
}

abbrev finish : Piece → Piece
finish q = record q { finished = true }

pub bytes_equal→eq : (xs ys : List ℕ) → bytes_equal xs ys ≡ true → xs ≡ ys
unfolding bytes_equal
bytes_equal→eq [] [] e = refl
bytes_equal→eq [] (y ∷ ys) e = cc
bytes_equal→eq (x ∷ xs) [] e = cc
bytes_equal→eq (x ∷ xs) (y ∷ ys) e = ground (arith, bytes_equal→eq xs ys)

pub bytes_equal_self : (xs : List ℕ) → bytes_equal xs xs ≡ true
unfolding bytes_equal
bytes_equal_self [] = refl
bytes_equal_self (x ∷ xs) = ground (arith, bytes_equal_self xs)

pub length-modify_piece :
    (i : ℕ) (f : Piece → Piece) (ps : List Piece) → length (modify_piece i f ps) ≡ length ps
unfolding modify_piece
length-modify_piece i f [] = refl
length-modify_piece zero f (p ∷ ps) = refl
length-modify_piece (suc i) f (p ∷ ps) = ap suc (length-modify_piece i f ps)

pub modify_piece_self :
    (i : ℕ) (f : Piece → Piece) (ps : List Piece) {q : Piece}
    → get_elem? ps i ≡ some q
    → get_elem? (modify_piece i f ps) i ≡ some (f q)
unfolding modify_piece
modify_piece_self i f [] e = cc
modify_piece_self zero f (p ∷ ps) e = ground arith
modify_piece_self (suc i) f (p ∷ ps) e = modify_piece_self i f ps e

pub modify_piece_ne :
    (i j : ℕ) (f : Piece → Piece) (ps : List Piece)
    → i ≢ j
    → get_elem? (modify_piece i f ps) j ≡ get_elem? ps j
unfolding modify_piece
modify_piece_ne i j f [] h = refl
modify_piece_ne zero zero f (p ∷ ps) h = absurd (h refl)
modify_piece_ne zero (suc j) f (p ∷ ps) h = refl
modify_piece_ne (suc i) zero f (p ∷ ps) h = refl
modify_piece_ne (suc i) (suc j) f (p ∷ ps) h = modify_piece_ne i j f ps (λ e. h (ap suc e))

count_finished-finish :
    (i : ℕ) (ps : List Piece) {q : Piece}
    → get_elem? ps i ≡ some q
    → q.finished ≡ false
    → count_finished (modify_piece i finish ps) ≡ count_finished ps + 1
unfolding modify_piece
count_finished-finish i [] e h = cc
count_finished-finish zero (p ∷ ps) {q} e h =
    let f : p.finished ≡ false = (ap (λ (x : Piece). x.finished) (let pq : p ≡ q = cc in pq)) ∙ h in
    rw f (omega arith)
count_finished-finish (suc i) (p ∷ ps) e h = omega (arith, count_finished-finish i ps e h)

pub count_finished-le : (ps : List Piece) → count_finished ps ≤ length ps
count_finished-le [] = omega arith
count_finished-le (p ∷ ps) = ground (arith, count_finished-le ps)

map-finish :
    (i : ℕ) (ps : List Piece)
    → map (λ q. q.finished) (modify_piece i finish ps) ≡ set (map (λ q. q.finished) ps) i true
unfolding modify_piece
map-finish i [] = refl
map-finish zero (p ∷ ps) = refl
map-finish (suc i) (p ∷ ps) = ap (◌∷◌ p.finished) (map-finish i ps)

-- What a successful write leaves: the bytes at the place of the piece, and the rest of the torrent.
abbrev Written : ℕ → List ℕ → Torrent → Torrent → Type 0
Written index bytes t u =
    (s : Stream) × (u ≡ record t { file = record (t.file) { fp = some s } })
    × (s.contents ≡ overwrite (index * t.piece_length) bytes (file_bytes t.file.fp))

stream_of-eq : (fp : Option Stream) {s : Stream} → stream_of fp ≡ done s → fp ≡ some s
unfolding stream_of
stream_of-eq none e = cc
stream_of-eq (some s) e = cc

-- The offset of a piece in the file, where the file fits a long.
pub offset_lem :
    (index spacing : ℕ) (f : File)
    → index * spacing < 2 ^ 63
    → f.begin ≡ 0
    → file_offset (index * spacing % 2 ^ 64) f ≡ index * spacing
unfolding file_offset
offset_lem index spacing f h b = rw b (omega arith)

fwrite_all :
    (bytes : List ℕ) (s : Stream) {u : Stream}
    → all_or_throw bytes (fwrite bytes s) ≡ done u
    → u.contents ≡ overwrite s.position bytes s.contents
unfolding all_or_throw fwrite
fwrite_all bytes s {u} e = ground (arith, take_all (min (length bytes) (s.room - s.position)) bytes)

pub fseek_lem :
    (offset : ℕ) (s : Stream)
    → offset < 2 ^ 63
    → fseek offset s ≡ some (record s { position = offset })
unfolding fseek
fseek_lem offset s h = ground arith

write_piece-Written :
    (index : ℕ) (bytes : List ℕ) (t : Torrent)
    → t.file.begin ≡ 0
    → index * t.piece_length < 2 ^ 63
    → Ensures (Written index bytes t) (write_piece index bytes t)
unfolding write_piece seek_or_throw
write_piece-Written index bytes t b h =
    >>=-Ensures (Written index bytes t) (stream_of t.file.fp) _ λ s opened.
      let place = index * t.piece_length in
      rw (offset_lem index t.piece_length t.file h b, fseek_lem place s h, seek_or_throw)
        (>>=-Ensures (Written index bytes t)
          (all_or_throw bytes (fwrite bytes (record s { position = place }))) _
          λ s' e. (s', refl, rw (stream_of-eq t.file.fp opened) (fwrite_all bytes _ e)))

set_bit-lem :
    (index : ℕ) (t : Torrent) {u : Torrent}
    → set_bit index t ≡ done u
    → u ≡ record t { bitfield = set t.bitfield index true }
unfolding set_bit
set_bit-lem index t {u} e = ground arith

-- A hash check that passes names a piece with the hash of the bytes.
pub check_piece_hash_lem :
    (platform : Platform) (bytes : List ℕ) (index : ℕ) (t : Torrent)
    → check_piece_hash platform bytes index t ≡ true
    → (q : Piece) × (get_elem? t.pieces index ≡ some q)
      × (digest_bytes (platform.sha1 bytes) ≡ q.hash)
unfolding check_piece_hash hash_matches
check_piece_hash_lem platform bytes index t e =
    from_match (get_elem? t.pieces index) refl (ground arith)
  where
    from_match :
        (o : Option Piece)
        → get_elem? t.pieces index ≡ o
        → hash_matches (digest_bytes (platform.sha1 bytes)) o ≡ true
        → (q : Piece) × (get_elem? t.pieces index ≡ some q)
          × (digest_bytes (platform.sha1 bytes) ≡ q.hash)
    from_match none f m = cc
    from_match (some q) f m = (q, f, bytes_equal→eq _ _ m)

-- The pieces before and behind the one that is written keep their bytes.
module _ (platform : Platform) (spacing index : ℕ) (bytes file : List ℕ) (pieces : List Piece)
    {q : Piece} (found : get_elem? pieces index ≡ some q)
    (hashed : digest_bytes (platform.sha1 bytes) ≡ q.hash) (short : length bytes ≤ spacing)
    (stored : Stored platform spacing file pieces) where
  abbrev written_file : List ℕ
  written_file = overwrite (index * spacing) bytes file

  piece_before : (i j k : ℕ) → i < j → k < spacing → i * spacing + k < j * spacing
  piece_before i j k h g = grind arith

  piece_behind : (i : ℕ) → ¬ (i < index) → i ≢ index → index * spacing + spacing ≤ i * spacing
  piece_behind i b n = let above : index + 1 ≤ i = omega arith in grind arith

  piece_kept :
      (i k : ℕ)
      → i ≢ index
      → k < spacing
      → i * spacing + k < length file
      → get_elem? written_file (i * spacing + k) ≡ get_elem? file (i * spacing + k)
  piece_kept i k h g m = elim (dec_lt i index) [
    | yes before ↦
        overwrite_before (index * spacing) bytes file _ (piece_before i index k before g) m
    | no behind ↦
        overwrite_after (index * spacing) bytes file _ (omega (arith, piece_behind i behind h))
  ]

  HoldsPiece-kept :
      (i : ℕ) (hash : List ℕ)
      → i ≢ index
      → HoldsPiece platform spacing file i hash
      → HoldsPiece platform spacing written_file i hash
  HoldsPiece-kept i hash other (old, digest, fits, there) = (
    old,
    digest,
    fits,
    λ k h.
        let (x, at) = get_elem?-within old k h in
        piece_kept i k other (omega arith) (get_elem?-below file _ (there k h ∙ at)) ∙ there k h,
  )

  Stored-finish : Stored platform spacing written_file (modify_piece index finish pieces)
  Stored-finish i r e f = elim (ℕ_discrete i index) [
    | yes same ↦
        let now : some r ≡ some (finish q) =
          sym (rw same at e) ∙ modify_piece_self index finish pieces found in
        let hash : q.hash ≡ r.hash = ground arith in
        (
          bytes,
          hashed ∙ hash,
          short,
          λ k h. rw same (overwrite_inside (index * spacing) bytes file k h),
        )
    | no other ↦
        HoldsPiece-kept i r.hash other
          (stored i r (sym (modify_piece_ne index i finish pieces (λ x. other (sym x))) ∙ e) f)
  ]

place_fits :
    (index count spacing : ℕ) → index < count → count * spacing < 2 ^ 63 → index * spacing < 2 ^ 63
place_fits index count spacing h g =
    let m : index * spacing ≤ count * spacing = grind arith in omega arith

module _ (platform : Platform) (spacing index : ℕ) (bytes : List ℕ) (t : Torrent) {q : Piece}
    (found : get_elem? t.pieces index ≡ some q) (new : q.finished ≡ false)
    (hashed : digest_bytes (platform.sha1 bytes) ≡ q.hash) (short : length bytes ≤ spacing)
    (v : SoundTorrent platform spacing t) where
  counted_now :
      (t.completed_pieces + 1) % 2 ^ 64 ≡ count_finished (modify_piece index finish t.pieces)
  counted_now = omega (
    arith,
    v.counted,
    v.countable,
    count_finished-finish index t.pieces found new,
    count_finished-le (modify_piece index finish t.pieces),
    length-modify_piece index finish t.pieces,
  )

  Books-accept :
      (s : Stream)
      → s.contents ≡ overwrite (index * t.piece_length) bytes (file_bytes t.file.fp)
      → Books platform spacing t.piece_length
          ((t.completed_pieces + 1) % 2 ^ 64)
          (modify_piece index finish t.pieces)
          (set t.bitfield index true)
          t.file.begin
          s.contents
  Books-accept s contents = record {
    spaced = v.spaced;
    counted = counted_now;
    mirrored =
        ap (λ (b : List Bool). set b index true) v.mirrored ∙ sym (map-finish index t.pieces);
    from_start = v.from_start;
    addressable = rw length-modify_piece v.addressable;
    countable = rw length-modify_piece v.countable;
    stored =
        subst (λ file. Stored platform spacing file (modify_piece index finish t.pieces))
          (sym (
            contents ∙ ap (λ (n : ℕ). overwrite (index * n) bytes (file_bytes t.file.fp)) v.spaced))
          (Stored-finish platform spacing index bytes (file_bytes t.file.fp) t.pieces found hashed
            short v.stored);
  }

  -- The torrent after a piece that was not finished has been accepted.
  pub accept_piece-SoundTorrent :
      Ensures (SoundTorrent platform spacing) (accept_piece index bytes t)
  unfolding accept_piece count_piece
  accept_piece-SoundTorrent =
      >>=-Ensures (SoundTorrent platform spacing) (write_piece index bytes t) _ λ t' wrote.
        >>=-Ensures (SoundTorrent platform spacing) (set_bit index t') _ λ t'' marked.
          let (s, rest, contents) =
            Ensures-done (Written index bytes t) (write_piece index bytes t) wrote (
              write_piece-Written index bytes t v.from_start (
                subst (λ n. index * n < 2 ^ 63) (sym v.spaced)
                  (place_fits index (length t.pieces) spacing (get_elem?-below t.pieces index found)
                    v.addressable))) in
          rw (set_bit-lem index t' marked, rest) (Books-accept s contents)
