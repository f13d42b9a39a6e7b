-- ===== src/Soundness/Choice.antt =====
-- Choosing a piece changes priorities only, and queues the piece.
use ytorrent.Base.{
  ℕ, zero, suc, ◌+◌, ◌%◌, ◌≡◌, refl, ap, sym, ◌∙◌, List, [], ◌∷◌, some, Bool, if◌then◌else◌, ◌==◌,
  map, get_elem?, Ensures, if-elim,
}
use ytorrent.Client.{Client, Torrent, Piece, Platform, max_block_request_size, int32_max}
use ytorrent.Torrent.Select.{
  Selection, unrequested, least, modify_piece, act_on, on_piece, select_piece_and_request,
}
use ytorrent.Soundness.{SoundTorrent, Sound, count_finished}
use ytorrent.Soundness.Store.{length-modify_piece}
use ytorrent.Soundness.Peers.{send_piece_request-Sound}

-- A change of a piece that leaves its flag and its hash.
abbrev KeepsData : (Piece → Piece) → Type 0
KeepsData f = (q : Piece) → ((f q).finished ≡ q.finished) × ((f q).hash ≡ q.hash)

count_finished-modify :
    (i : ℕ) (f : Piece → Piece) (ps : List Piece)
    → KeepsData f
    → count_finished (modify_piece i f ps) ≡ count_finished ps
unfolding modify_piece
count_finished-modify i f [] k = refl
count_finished-modify zero f (p ∷ ps) k =
    ap (λ (b : Bool). (if b then 1 else 0) + count_finished ps) (k p).0
count_finished-modify (suc i) f (p ∷ ps) k =
    ap (λ (n : ℕ). (if p.finished then 1 else 0) + n) (count_finished-modify i f ps k)

map-modify :
    (i : ℕ) (f : Piece → Piece) (ps : List Piece)
    → KeepsData f
    → map (λ q. q.finished) (modify_piece i f ps) ≡ map (λ q. q.finished) ps
unfolding modify_piece
map-modify i f [] k = refl
map-modify zero f (p ∷ ps) k = ap (λ (b : Bool). b ∷ map (λ q. q.finished) ps) (k p).0
map-modify (suc i) f (p ∷ ps) k = ap (◌∷◌ p.finished) (map-modify i f ps k)

-- Every piece after the change comes from one with the same flag and hash.
get_elem?-modify :
    (i j : ℕ) (f : Piece → Piece) (ps : List Piece) (r : Piece)
    → KeepsData f
    → get_elem? (modify_piece i f ps) j ≡ some r
    → (q : Piece) × (get_elem? ps j ≡ some q) × (r.finished ≡ q.finished) × (r.hash ≡ q.hash)
unfolding modify_piece
get_elem?-modify i j f [] r k e = (r, e, refl, refl)
get_elem?-modify zero zero f (p ∷ ps) r k e =
    let same : f p ≡ r = cc in
    (
      p,
      refl,
      ap (λ (x : Piece). x.finished) (sym same) ∙ (k p).0,
      ap (λ (x : Piece). x.hash) (sym same) ∙ (k p).1,
    )
get_elem?-modify zero (suc j) f (p ∷ ps) r k e = (r, e, refl, refl)
get_elem?-modify (suc i) zero f (p ∷ ps) r k e = (r, e, refl, refl)
get_elem?-modify (suc i) (suc j) f (p ∷ ps) r k e = get_elem?-modify i j f ps r k e

pub on_piece-SoundTorrent :
    (platform : Platform) (spacing i : ℕ) (f : Piece → Piece) (t : Torrent)
    → KeepsData f
    → SoundTorrent platform spacing t
    → SoundTorrent platform spacing (on_piece i f t)
on_piece-SoundTorrent platform spacing i f t k v = record {
  spaced = v.spaced;
  counted = v.counted ∙ sym (count_finished-modify i f t.pieces k);
  mirrored = v.mirrored ∙ sym (map-modify i f t.pieces k);
  from_start = v.from_start;
  addressable = rw length-modify_piece v.addressable;
  countable = rw length-modify_piece v.countable;
  stored = λ j r e finished.
      let (q, there, flag, hash) = get_elem?-modify i j f t.pieces r k e in
      rw hash (v.stored j q there (sym flag ∙ finished));
}

module _ (platform : Platform) (spacing : ℕ) (aligned : spacing % max_block_request_size ≡ 0) where
  act_on-Sound :
      (p : ℕ) (s : Selection) (c : Client)
      → Sound platform spacing c
      → Ensures (Sound platform spacing) (act_on p s c)
  unfolding act_on
  act_on-Sound p (unrequested i) c v = send_piece_request-Sound platform spacing aligned p i _ (
    on_piece-SoundTorrent platform spacing i (λ q. record q { priority = 1 }) c.torrent
        (λ q. (refl, refl)) v.0,
    v.1,
  )
  act_on-Sound p (least i n) c v = if-elim (Ensures (Sound platform spacing)) (n == int32_max) v (
      send_piece_request-Sound platform spacing aligned p i _ (
        on_piece-SoundTorrent platform spacing i (λ q. record q { priority = q.priority + 1 })
            c.torrent (λ q. (refl, refl)) v.0,
        v.1,
      ))

  pub select_piece_and_request-Sound :
      (p : ℕ) (c : Client)
      → Sound platform spacing c
      → Ensures (Sound platform spacing) (select_piece_and_request p c)
  unfolding select_piece_and_request
  select_piece_and_request-Sound p c v = act_on-Sound p _ c v
