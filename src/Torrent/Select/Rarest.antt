-- ===== src/Torrent/Select/Rarest.antt =====
-- Which piece Torrent::selectPieceAndRequest of src/torrent/torrent.cpp chooses.
use ytorrent.Base.{
  ℕ, zero, suc, ◌-◌, ◌≤◌, ◌≡◌, ◌⊎◌, inl, inr, refl, ap, sym, ◌∙◌, List, [], ◌∷◌, some, Bool, true,
  false, not, ◌||◌, ◌==◌, ltb, if-cases, tests, get_elem?, arith,
}
use ytorrent.Client.{Client, Piece, int32_max, has_piece}
use ytorrent.Torrent.Select.{
  Selection, unrequested, least, select_loop, act_on, select_piece_and_request,
}

-- The piece `q` stands at `k`, where the list starts at the number `i`.
abbrev FoundFrom : List Piece → ℕ → ℕ → Piece → Type 0
FoundFrom ps i k q = (i ≤ k) × (get_elem? ps (k - i) ≡ some q)

-- A piece that is missing, and that the peer has.
abbrev pub IsWanted : List ℕ → Piece → ℕ → Type 0
IsWanted has q k = (q.finished ≡ false) × (has_piece has k ≡ true)

found_later :
    (p : Piece) {q : Piece} (ps : List Piece) (i k : ℕ)
    → FoundFrom ps (suc i) k q
    → FoundFrom (p ∷ ps) i k q
found_later p {q} ps i k (h, e) = (
  omega arith,
  ap (λ n. get_elem? (p ∷ ps) n) {x = k - i} {y = suc (k - suc i)} (omega arith) ∙ e,
)

found_here : (p : Piece) (ps : List Piece) (i k : ℕ) → k ≡ i → FoundFrom (p ∷ ps) i k p
found_here p ps i k e =
    (omega arith, ap (λ n. get_elem? (p ∷ ps) n) {x = k - i} {y = 0} (omega arith))

IsWanted-moved :
    (has : List ℕ) {p q : Piece} {i j : ℕ} → j ≡ i → p ≡ q → IsWanted has q j → IsWanted has p i
IsWanted-moved has at same (missing, there) = (cc, cc)

some_injective : {p q : Piece} → some p ≡ some q → p ≡ q
some_injective e = cc

here_or_later :
    {p q : Piece} (ps : List Piece) (i k n : ℕ)
    → n ≡ k - i
    → i ≤ k
    → get_elem? (p ∷ ps) n ≡ some q
    → ((k ≡ i) × (p ≡ q)) ⊎ FoundFrom ps (suc i) k q
here_or_later ps i k zero e h there = inl (omega arith, some_injective there)
here_or_later ps i k (suc n) e h there =
    inr (omega arith, ap (get_elem? ps) {x = k - suc i} {y = n} (omega arith) ∙ there)

abbrev LoopResult : List ℕ → List Piece → ℕ → ℕ → ℕ → Selection → Type 0
LoopResult has ps i index priority (unrequested k) =
    (q : Piece) × FoundFrom ps i k q × IsWanted has q k × (q.priority ≡ 0)
LoopResult has ps i index priority (least k pr) =
    (pr ≤ priority)
    × ((j : ℕ) (q : Piece) → FoundFrom ps i j q → IsWanted has q j → pr ≤ q.priority)
    × (((k ≡ index) × (pr ≡ priority))
        ⊎ ((q : Piece) × FoundFrom ps i k q × IsWanted has q k × (q.priority ≡ pr)))

-- One round that goes on with the rest of the list, with the bound kept or lowered.
round :
    (has : List ℕ) (p : Piece) (ps : List Piece) (i index priority index' priority' : ℕ)
    (s : Selection)
    → priority' ≤ priority
    → (IsWanted has p i → priority' ≤ p.priority)
    → (((index' ≡ index) × (priority' ≡ priority))
        ⊎ ((index' ≡ i) × (priority' ≡ p.priority) × IsWanted has p i))
    → LoopResult has ps (suc i) index' priority' s
    → LoopResult has (p ∷ ps) i index priority s
round has p ps i index priority index' priority' (unrequested k) lower here origin
      (q, found, wanted, zero_now) =
    (q, found_later p ps i k found, wanted, zero_now)
round has p ps i index priority index' priority' (least k pr) lower here origin
      (bound, smallest, chosen) =
    (
      omega arith,
      (λ j q found wanted. elim (here_or_later ps i j (j - i) refl found.0 found.1) [
        | inl (at, same) ↦
            omega
              (arith, here (IsWanted-moved has at same wanted), ap (λ (x : Piece). x.priority) same)
        | inr later ↦ smallest j q later wanted
      ]),
      elim chosen [
        | inl (kept, same) ↦ elim origin [
          | inl (a, b) ↦ inl (kept ∙ a, same ∙ b)
          | inr (a, b, wanted) ↦ inr (
            p,
            found_here p ps i k (kept ∙ a),
            IsWanted-moved has {p = p} (sym (kept ∙ a)) refl wanted,
            sym (same ∙ b),
          )
        ]
        | inr (q, found, wanted, e) ↦ inr (q, found_later p ps i k found, wanted, e)
      ],
    )

skip_test_true : (f h : Bool) → (f || not h) ≡ true → f ≡ false → h ≡ true → ⊥
skip_test_true true h e a b = absurd (cc a)
skip_test_true false true e a b = absurd (cc e)
skip_test_true false false e a b = absurd (cc b)

skip_test_false : (f h : Bool) → (f || not h) ≡ false → (f ≡ false) × (h ≡ true)
skip_test_false true h e = absurd (cc e)
skip_test_false false true e = (refl, refl)
skip_test_false false false e = absurd (cc e)

not_wanted :
    (has : List ℕ) (p : Piece) (i : ℕ)
    → (p.finished || not (has_piece has i)) ≡ true
    → IsWanted has p i
    → ⊥
not_wanted has p i e (missing, there) = skip_test_true p.finished (has_piece has i) e missing there

IsWanted-now :
    (has : List ℕ) (p : Piece) (i : ℕ)
    → (p.finished || not (has_piece has i)) ≡ false
    → IsWanted has p i
IsWanted-now has p i e = skip_test_false p.finished (has_piece has i) e

select_loop-LoopResult :
    (has : List ℕ) (ps : List Piece) (i index priority : ℕ)
    → LoopResult has ps i index priority (select_loop has ps i index priority)
unfolding select_loop
select_loop-LoopResult has [] i index priority =
    (omega arith, (λ j q found wanted. absurd (cc found.1)), inl (refl, refl))
select_loop-LoopResult has (p ∷ ps) i index priority =
    let skip = select_loop has ps (suc i) index priority in
    let lower = select_loop has ps (suc i) i p.priority in
    if-cases (LoopResult has (p ∷ ps) i index priority) (p.finished || not (has_piece has i))
      (λ e.
        round has p ps i index priority index priority skip (omega arith)
          (λ wanted. absurd (not_wanted has p i e wanted)) (inl (refl, refl))
          (select_loop-LoopResult has ps (suc i) index priority))
      (λ e.
        if-cases (LoopResult has (p ∷ ps) i index priority) (p.priority == 0)
          (λ z. (p, found_here p ps i i refl, IsWanted-now has p i e, (ground arith)))
          (λ z.
            if-cases (LoopResult has (p ∷ ps) i index priority) (ltb p.priority priority)
              (λ l.
                round has p ps i index priority i p.priority lower (omega tests)
                  (λ wanted. omega arith) (inr (refl, refl, IsWanted-now has p i e))
                  (select_loop-LoopResult has ps (suc i) i p.priority))
              (λ l.
                round has p ps i index priority index priority skip (omega arith)
                  (λ wanted. ground arith) (inl (refl, refl))
                  (select_loop-LoopResult has ps (suc i) index priority))))

-- A good choice from all pieces: one that nobody was asked for, or one with the least priority.
abbrev pub IsRarest : List ℕ → List Piece → Selection → Type 0
IsRarest has ps (unrequested k) =
    (q : Piece) × (get_elem? ps k ≡ some q) × IsWanted has q k × (q.priority ≡ 0)
IsRarest has ps (least k pr) =
    ((j : ℕ) (q : Piece) → get_elem? ps j ≡ some q → IsWanted has q j → pr ≤ q.priority)
    × ((pr ≡ int32_max)
        ⊎ ((q : Piece) × (get_elem? ps k ≡ some q) × IsWanted has q k × (q.priority ≡ pr)))

from_zero :
    {q : Piece} (ps : List Piece) (k : ℕ) → get_elem? ps (k - 0) ≡ some q → get_elem? ps k ≡ some q
from_zero ps k e = ap (get_elem? ps) {x = k} {y = k - 0} (omega arith) ∙ e

to_zero : {q : Piece} (ps : List Piece) (k : ℕ) → get_elem? ps k ≡ some q → FoundFrom ps 0 k q
to_zero ps k e = (omega arith, ap (get_elem? ps) {x = k - 0} {y = k} (omega arith) ∙ e)

LoopResult-IsRarest :
    (has : List ℕ) (ps : List Piece) (s : Selection)
    → LoopResult has ps 0 0 int32_max s
    → IsRarest has ps s
LoopResult-IsRarest has ps (unrequested k) (q, found, wanted, e) =
    (q, from_zero ps k found.1, wanted, e)
LoopResult-IsRarest has ps (least k pr) (bound, smallest, chosen) = (
  (λ j q there wanted. smallest j q (to_zero ps j there) wanted),
  elim chosen [
    | inl (kept, same) ↦ inl same
    | inr (q, found, wanted, e) ↦ inr (q, from_zero ps k found.1, wanted, e)
  ],
)

-- The piece that is asked for is one that is missing and that the peer has, and none such has been asked
-- for less often; only if each such piece has the greatest priority, nothing is asked for.
pub select_piece_and_request-IsRarest :
    (p : ℕ) (c : Client)
    → (s : Selection) × IsRarest (c.peers p).has_piece_indexes c.torrent.pieces s
      × (select_piece_and_request p c ≡ act_on p s c)
unfolding select_piece_and_request
select_piece_and_request-IsRarest p c =
    let has = (c.peers p).has_piece_indexes in
    (
      select_loop has c.torrent.pieces 0 0 int32_max,
      LoopResult-IsRarest has c.torrent.pieces (select_loop has c.torrent.pieces 0 0 int32_max)
          (select_loop-LoopResult has c.torrent.pieces 0 0 int32_max),
      refl,
    )
