-- ===== src/Soundness/Acceptance.antt =====
-- A piece that arrived whole is accepted: Torrent::handlePieceCompleted of src/torrent/torrent.cpp returns.
use ytorrent.Base.{
  take_all, ℕ, ◌+◌, ◌-◌, ◌*◌, ◌%◌, ◌^◌, ◌≤◌, ◌<◌, min, ◌≡◌, ◌≢◌, subst, refl, ap, sym, ◌∙◌, List,
  [], ◌∷◌, some, true, ◌==◌, leb, if-cases, length, set, get_elem?, get_elem?-set_self, arith,
  Outcome, done, ◌>>=◌,
}
use ytorrent.Net.Outgoing.{bytes_of, add_u8, add_u32, add_custom}
use ytorrent.Net.Link.{write_message}
use ytorrent.Utils.Transcoder.{write_as_be32}
use ytorrent.Client.{
  Client, Peer, Torrent, Piece, Stream, Platform, set_peer, test_state, am_choking,
}
use ytorrent.Torrent.Sizes.{check_piece_hash, hash_matches, digest_bytes}
use ytorrent.Torrent.Disk.{fwrite, fseek, overwrite}
use ytorrent.Torrent.Store.{
  file_offset, write_piece, seek_or_throw, stream_of, all_or_throw, set_bit, count_piece,
  accept_piece, announce, count_miss, handle_piece_completed,
}
use ytorrent.Peer.Send.{send_have, have_message, write_out}
use ytorrent.Soundness.{file_bytes}
use ytorrent.Soundness.Lookup.{overwrite_inside, get_elem?-below}
use ytorrent.Soundness.Store.{
  offset_lem, fseek_lem, bytes_equal_self, modify_piece_self, check_piece_hash_lem,
}

-- The call returns, and its result is in `P`.
abbrev pub Returns : {A : Type 0} → (A → Type 0) → Outcome A → Type 0
Returns {A = A} P m = (a : A) × (m ≡ done a) × P a

>>=-Returns :
    {A B : Type 0} (P : A → Type 0) (Q : B → Type 0) (m : Outcome A) (f : A → Outcome B)
    → Returns P m
    → ((a : A) → P a → Returns Q (f a))
    → Returns Q (m >>= f)
>>=-Returns P Q m f (a, e, p) h = rw e (h a p)

-- The file after the write.
written_stream : ℕ → List ℕ → Stream → Stream
written_stream place bytes s = record s {
  contents = overwrite place bytes s.contents;
  position = place + length bytes;
}

min_room : (n place room : ℕ) → place + n ≤ room → min n (room - place) ≡ n
min_room n place room h = omega arith

fwrite-room :
    (bytes : List ℕ) (place : ℕ) (s : Stream)
    → place + length bytes ≤ s.room
    → all_or_throw bytes (fwrite bytes (record s { position = place }))
      ≡ done (written_stream place bytes s)
unfolding all_or_throw fwrite written_stream
fwrite-room bytes place s h =
    rw (min_room (length bytes) place s.room h, take_all (length bytes) bytes refl)
      (if-cases (λ m. m ≡ done (written_stream place bytes s)) (length bytes == length bytes)
        (λ _. refl) (λ e. absurd (ground arith)))

write_piece-room :
    (index : ℕ) (bytes : List ℕ) (t : Torrent) (s : Stream)
    → t.file.fp ≡ some s
    → t.file.begin ≡ 0
    → index * t.piece_length + length bytes ≤ s.room
    → index * t.piece_length < 2 ^ 63
    → write_piece index bytes t
      ≡ done (record t {
        file = record (t.file) { fp = some (written_stream (index * t.piece_length) bytes s) };
      })
unfolding write_piece stream_of seek_or_throw
write_piece-room index bytes t s opened start room short =
    let place = index * t.piece_length in
    let f = record t { file = record (t.file) { fp = some (written_stream place bytes s) } } in
    ap
      (λ fp. stream_of fp >>= (λ s0.
        seek_or_throw (fseek (file_offset (place % 2 ^ 64) t.file) s0) >>= (λ s1.
          all_or_throw bytes (fwrite bytes s1)
          >>= (λ s2. done (record t { file = record (t.file) { fp = some s2 } })))))
      opened
    ∙ ap
        (λ o. seek_or_throw (fseek o s) >>= (λ s1.
          all_or_throw bytes (fwrite bytes s1)
          >>= (λ s2. done (record t { file = record (t.file) { fp = some s2 } }))))
        (offset_lem index t.piece_length t.file short start)
    ∙ ap
        (λ o. seek_or_throw o >>= (λ s1.
          all_or_throw bytes (fwrite bytes s1)
          >>= (λ s2. done (record t { file = record (t.file) { fp = some s2 } }))))
        (fseek_lem place s short)
    ∙ ap (λ m. m >>= (λ s2. done (record t { file = record (t.file) { fp = some s2 } })))
        (fwrite-room bytes place s room)

-- What an accepted piece leaves of the torrent `t`.
abbrev pub IsAccepted : ℕ → List ℕ → Piece → Torrent → Torrent → Type 0
IsAccepted index bytes q t u =
    (get_elem? u.pieces index ≡ some (record q { finished = true }))
    × (get_elem? u.bitfield index ≡ some true)
    × (u.completed_pieces ≡ (t.completed_pieces + 1) % 2 ^ 64)
    × (u.downloaded_bytes ≡ (t.downloaded_bytes + length bytes) % 2 ^ 64)
    × ((k : ℕ)
        → k < length bytes
        → get_elem? (file_bytes u.file.fp) (index * t.piece_length + k) ≡ get_elem? bytes k)

set_bit-inside :
    (index : ℕ) (t : Torrent)
    → index < length t.bitfield
    → set_bit index t ≡ done (record t { bitfield = set t.bitfield index true })
unfolding set_bit
set_bit-inside index t h = ground arith

-- What a piece needs to be accepted: room in the open file, and a bit in the bit field.
abbrev pub HasPlace : ℕ → List ℕ → Piece → Stream → Torrent → Type 0
HasPlace index bytes q s t =
    (t.file.fp ≡ some s)
    × (t.file.begin ≡ 0)
    × (index * t.piece_length + length bytes ≤ s.room)
    × (index * t.piece_length < 2 ^ 63)
    × (get_elem? t.pieces index ≡ some q)
    × (index < length t.bitfield)

accept_piece-Returns :
    (index : ℕ) (bytes : List ℕ) (q : Piece) (s : Stream) (t : Torrent)
    → HasPlace index bytes q s t
    → Returns (IsAccepted index bytes q t) (accept_piece index bytes t)
unfolding accept_piece count_piece written_stream
accept_piece-Returns index bytes q s t (opened, start, room, short, found, mirrored) =
    let t' = record t {
      file = record (t.file) { fp = some (written_stream (index * t.piece_length) bytes s) };
    } in
    (
      count_piece index bytes (record t' { bitfield = set t.bitfield index true }),
      ap (λ m. m >>= (λ x. set_bit index x >>= (λ y. done (count_piece index bytes y))))
            (write_piece-room index bytes t s opened start room short)
          ∙ ap (λ m. m >>= (λ y. done (count_piece index bytes y)))
              (set_bit-inside index t' mirrored),
      (
        modify_piece_self index (λ x. record x { finished = true }) t.pieces found,
        get_elem?-set_self t.bitfield index true mirrored,
        refl,
        refl,
        (λ k h. overwrite_inside (index * t.piece_length) bytes s.contents k h),
      ),
    )

write_out-have : (index : ℕ) (x : Peer) → (y : Peer) × (write_out (have_message index) x ≡ done y)
unfolding write_out write_message bytes_of have_message add_u8 add_u32 add_custom write_as_be32
write_out-have index x = (_, refl)

send_have-returns : (index : ℕ) (x : Peer) → (y : Peer) × (send_have index x ≡ done y)
unfolding send_have
send_have-returns index x =
    if-cases (λ m. (y : Peer) × (m ≡ done y)) (test_state am_choking x) (λ _. (x, refl))
      (λ _. write_out-have (index % 2 ^ 32) x)

announce-Returns :
    (index : ℕ) (ps : List ℕ) (c : Client)
    → Returns (λ d. d.torrent ≡ c.torrent) (announce index ps c)
unfolding announce
announce-Returns index [] c = (c, refl, refl)
announce-Returns index (p ∷ ps) c =
    let (y, sent) = send_have-returns index (c.peers p) in
    let (d, e, same) = announce-Returns index ps (set_peer p y c) in (d, rw sent e, same)

check_piece_hash-passes :
    (platform : Platform) (bytes : List ℕ) (index : ℕ) (t : Torrent) (q : Piece)
    → get_elem? t.pieces index ≡ some q
    → digest_bytes (platform.sha1 bytes) ≡ q.hash
    → check_piece_hash platform bytes index t ≡ true
unfolding check_piece_hash hash_matches
check_piece_hash-passes platform bytes index t q found digest =
    if-cases (λ b. b ≡ true) (leb (length t.pieces) index)
      (λ e. absurd (ground (arith, get_elem?-below t.pieces index found)))
      (λ _. rw (found, digest) (bytes_equal_self q.hash))

-- handlePieceCompleted returns for a piece with the right hash that has its place: the piece is finished,
-- its bit is set, both counters go up, and the file holds the bytes at the place of the piece.
pub handle_piece_completed-IsAccepted :
    (platform : Platform) (index : ℕ) (bytes : List ℕ) (q : Piece) (s : Stream) (c : Client)
    → HasPlace index bytes q s c.torrent
    → digest_bytes (platform.sha1 bytes) ≡ q.hash
    → Returns
        (λ d. IsAccepted index bytes q c.torrent d.torrent)
        (handle_piece_completed platform index bytes c)
unfolding handle_piece_completed
handle_piece_completed-IsAccepted platform index bytes q s c place digest =
    let (u, accepted, good) = accept_piece-Returns index bytes q s c.torrent place in
    let (d, announced, same) = announce-Returns index u.active_peers (record c { torrent = u }) in
    (
      d,
      rw (check_piece_hash-passes platform bytes index c.torrent q place.4 digest, accepted)
          announced,
      subst (IsAccepted index bytes q c.torrent) (sym same) good,
    )

-- A piece with a wrong hash changes nothing but the counters of misses and wasted bytes.
pub handle_piece_completed-rejects :
    (platform : Platform) (index : ℕ) (bytes : List ℕ) (q : Piece) (c : Client)
    → get_elem? c.torrent.pieces index ≡ some q
    → digest_bytes (platform.sha1 bytes) ≢ q.hash
    → handle_piece_completed platform index bytes c
      ≡ done (record c {
        torrent = record c.torrent {
          piece_hash_misses = (c.torrent.piece_hash_misses + 1) % 2 ^ 64;
          wasted_bytes = (c.torrent.wasted_bytes + length bytes) % 2 ^ 64;
        };
      })
unfolding handle_piece_completed count_miss
handle_piece_completed-rejects platform index bytes q c found wrong =
    let rejected = record c {
      torrent = record c.torrent {
        piece_hash_misses = (c.torrent.piece_hash_misses + 1) % 2 ^ 64;
        wasted_bytes = (c.torrent.wasted_bytes + length bytes) % 2 ^ 64;
      };
    } in
    if-cases (λ m. m ≡ done rejected) (check_piece_hash platform bytes index c.torrent)
      (λ e.
        let (q', found', digest) = check_piece_hash_lem platform bytes index c.torrent e in
        let same : q' ≡ q = cc in absurd (wrong (digest ∙ ap (λ (x : Piece). x.hash) same)))
      (λ _. refl)
