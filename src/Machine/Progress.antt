-- ===== src/Machine/Progress.antt =====
-- What no move of the abstract machine takes back: what a finished piece is, and what the torrent file said.
use ytorrent.Base.{
  ℕ, zero, suc, ◌≡◌, refl, sym, subst, ◌∙◌, List, [], ◌∷◌, Bool, true, if-elim, leb, length, map,
  Ensures, Ensures-done, Ensures-then, >>=-Ensures, ap, ap₂, ◌≤◌, arith,
}
use ytorrent.Client.{Client, Torrent, Piece, File, Platform}
use ytorrent.Torrent.Select.{modify_piece}
use ytorrent.Torrent.Disk.{fwrite}
use ytorrent.Torrent.Store.{
  stream_of, seek_or_throw, all_or_throw, write_piece, set_bit, count_piece, accept_piece,
  count_miss,
}
use ytorrent.Events.{Reach}
use ytorrent.Soundness.{count_finished}
use ytorrent.Machine.{
  Move, meet, ask, miss, accept, open_anew, reposition, upload, Moves, stay, move,
}
use ytorrent.Machine.Run.{Reach-Moves}

-- The hashes are the same, and a finished piece stays finished.
abbrev pub Later : List Piece → List Piece → Type 0
Later [] [] = Unit
Later [] (q ∷ qs) = ⊥
Later (p ∷ ps) [] = ⊥
Later (p ∷ ps) (q ∷ qs) =
    ((q.hash ≡ p.hash) × (p.finished ≡ true → q.finished ≡ true)) × Later ps qs

Later-refl : (ps : List Piece) → Later ps ps
Later-refl [] = tt
Later-refl (p ∷ ps) = ((refl, λ h. h), Later-refl ps)

Later-trans : (ps qs rs : List Piece) → Later ps qs → Later qs rs → Later ps rs
Later-trans [] [] rs a b = b
Later-trans [] (q ∷ qs) rs a b = absurd a
Later-trans (p ∷ ps) [] rs a b = absurd a
Later-trans (p ∷ ps) (q ∷ qs) [] a b = absurd b
Later-trans (p ∷ ps) (q ∷ qs) (r ∷ rs) a b =
    ((b.0.0 ∙ a.0.0, λ h. b.0.1 (a.0.1 h)), Later-trans ps qs rs a.1 b.1)

Later-modify_piece :
    (i : ℕ) (f : Piece → Piece) (ps : List Piece)
    → ((p : Piece) → ((f p).hash ≡ p.hash) × (p.finished ≡ true → (f p).finished ≡ true))
    → Later ps (modify_piece i f ps)
unfolding modify_piece
Later-modify_piece i f [] h = tt
Later-modify_piece zero f (p ∷ ps) h = (h p, Later-refl ps)
Later-modify_piece (suc i) f (p ∷ ps) h = ((refl, λ k. k), Later-modify_piece i f ps h)

pub Later-hashes : (ps qs : List Piece) → Later ps qs → map (λ q. q.hash) qs ≡ map (λ q. q.hash) ps
Later-hashes [] [] a = refl
Later-hashes [] (q ∷ qs) a = absurd a
Later-hashes (p ∷ ps) [] a = absurd a
Later-hashes (p ∷ ps) (q ∷ qs) a = ap₂ (λ x xs. x ∷ xs) a.0.0 (Later-hashes ps qs a.1)

pub Later-length : (ps qs : List Piece) → Later ps qs → length qs ≡ length ps
Later-length [] [] a = refl
Later-length [] (q ∷ qs) a = absurd a
Later-length (p ∷ ps) [] a = absurd a
Later-length (p ∷ ps) (q ∷ qs) a = omega (arith, Later-length ps qs a.1)

pub Later-count_finished :
    (ps qs : List Piece) → Later ps qs → count_finished ps ≤ count_finished qs
Later-count_finished [] [] a = omega arith
Later-count_finished [] (q ∷ qs) a = absurd a
Later-count_finished (p ∷ ps) [] a = absurd a
Later-count_finished (p ∷ ps) (q ∷ qs) a =
    let more = Later-count_finished ps qs a.1 in let kept = a.0.1 in ground arith

-- What the torrent file said is the same, and no piece is lost.
pub record Advances (t u : Torrent) : Type 0 where
  pub later : Later t.pieces u.pieces
  pub same_length : u.piece_length ≡ t.piece_length
  pub same_size : u.total_size ≡ t.total_size
  pub same_handshake : u.handshake ≡ t.handshake
  pub same_id : u.own_id ≡ t.own_id
  pub same_name : u.name ≡ t.name
  pub same_tracker : u.main_tracker_url ≡ t.main_tracker_url

-- The pieces are later ones, and the rest is unchanged.
pieces-Advances :
    (t u : Torrent)
    → Later t.pieces u.pieces
    → u ≡ record t {
      active_peers = u.active_peers;
      black_listed = u.black_listed;
      pieces = u.pieces;
      file = u.file;
      bitfield = u.bitfield;
      completed_pieces = u.completed_pieces;
      uploaded_bytes = u.uploaded_bytes;
      downloaded_bytes = u.downloaded_bytes;
      wasted_bytes = u.wasted_bytes;
      piece_hash_misses = u.piece_hash_misses;
    }
    → Advances t u
pieces-Advances t u later e = record {
  later = later;
  same_length = ap (λ (x : Torrent). x.piece_length) e;
  same_size = ap (λ (x : Torrent). x.total_size) e;
  same_handshake = ap (λ (x : Torrent). x.handshake) e;
  same_id = ap (λ (x : Torrent). x.own_id) e;
  same_name = ap (λ (x : Torrent). x.name) e;
  same_tracker = ap (λ (x : Torrent). x.main_tracker_url) e;
}

Advances-trans : (t u w : Torrent) → Advances t u → Advances u w → Advances t w
Advances-trans t u w a b = record {
  later = Later-trans t.pieces u.pieces w.pieces a.later b.later;
  same_length = b.same_length ∙ a.same_length;
  same_size = b.same_size ∙ a.same_size;
  same_handshake = b.same_handshake ∙ a.same_handshake;
  same_id = b.same_id ∙ a.same_id;
  same_name = b.same_name ∙ a.same_name;
  same_tracker = b.same_tracker ∙ a.same_tracker;
}

-- A piece is accepted: the file, the bit field, the counters and the flag of the piece change.
write_piece-frame :
    (i : ℕ) (bytes : List ℕ) (t : Torrent)
    → Ensures (λ u. (f : File) × (u ≡ record t { file = f })) (write_piece i bytes t)
unfolding write_piece
write_piece-frame i bytes t =
    let P = λ (u : Torrent). (f : File) × (u ≡ record t { file = f }) in
    >>=-Ensures P (stream_of t.file.fp) _ λ s _.
      >>=-Ensures P (seek_or_throw _) _
        λ s' _. >>=-Ensures P (all_or_throw bytes (fwrite bytes s')) _ λ s'' _. (_, refl)

set_bit-frame :
    (i : ℕ) (t : Torrent)
    → Ensures (λ u. (bs : List Bool) × (u ≡ record t { bitfield = bs })) (set_bit i t)
unfolding set_bit
set_bit-frame i t =
    if-elim (Ensures (λ u. (bs : List Bool) × (u ≡ record t { bitfield = bs })))
      (leb (length t.bitfield) i) tt (_, refl)

count_piece-Advances :
    (i : ℕ) (bytes : List ℕ) (t u : Torrent) (f : File) (bs : List Bool)
    → u ≡ record t { file = f; bitfield = bs }
    → Advances t (count_piece i bytes u)
unfolding count_piece
count_piece-Advances i bytes t u f bs e =
    subst (λ (x : Torrent). Advances t (count_piece i bytes x)) (sym e)
      (pieces-Advances t (count_piece i bytes (record t { file = f; bitfield = bs }))
        (Later-modify_piece i _ t.pieces (λ p. (refl, λ _. refl))) refl)

accept_piece-Advances :
    (i : ℕ) (bytes : List ℕ) (t : Torrent) → Ensures (Advances t) (accept_piece i bytes t)
unfolding accept_piece
accept_piece-Advances i bytes t =
    Ensures-then (λ u. (f : File) × (u ≡ record t { file = f })) (Advances t)
      (write_piece i bytes t) _ (write_piece-frame i bytes t)
      λ u (f, e).
        Ensures-then (λ w. (bs : List Bool) × (w ≡ record u { bitfield = bs })) (Advances t)
          (set_bit i u) _ (set_bit-frame i u)
          λ w (bs, e').
            count_piece-Advances i bytes t w f bs
              (e' ∙ ap (λ (x : Torrent). record x { bitfield = bs }) e)

Move-Advances : (platform : Platform) (t u : Torrent) → Move platform t u → Advances t u
unfolding count_miss
Move-Advances platform t u (meet active black) = pieces-Advances t _ (Later-refl t.pieces) refl
Move-Advances platform t u (ask i f) =
    pieces-Advances t _ (Later-modify_piece i _ t.pieces (λ p. (refl, λ h. h))) refl
Move-Advances platform t u (miss bytes) = pieces-Advances t _ (Later-refl t.pieces) refl
Move-Advances platform t u (accept i bytes hashed new e) =
    Ensures-done (Advances t) (accept_piece i bytes t) e (accept_piece-Advances i bytes t)
Move-Advances platform t u (open_anew s closed) = pieces-Advances t _ (Later-refl t.pieces) refl
Move-Advances platform t u (reposition s s' opened same room) =
    pieces-Advances t _ (Later-refl t.pieces) refl
Move-Advances platform t u (upload size) = pieces-Advances t _ (Later-refl t.pieces) refl

pub Moves-Advances : (platform : Platform) (t u : Torrent) → Moves platform t u → Advances t u
Moves-Advances platform t u stay = pieces-Advances t t (Later-refl t.pieces) refl
Moves-Advances platform t u (move {u = w} ms m) =
    Advances-trans t w u (Moves-Advances platform t w ms) (Move-Advances platform w u m)

-- Whatever happens to the client, a finished piece stays finished, and the hashes, the sizes, the
-- handshake, our id, the name and the tracker's URL stay what they were.
pub Reach-Advances :
    (platform : Platform) (c d : Client) → Reach platform c d → Advances c.torrent d.torrent
Reach-Advances platform c d r =
    Moves-Advances platform c.torrent d.torrent (Reach-Moves platform c d r)
