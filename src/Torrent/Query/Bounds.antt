-- ===== src/Torrent/Query/Bounds.antt =====
-- The sizes that Torrent::pieceSize gives, and the numbers that Torrent::buildTrackerQuery reports, against
-- the size of the file: src/torrent/torrent.cpp.
use native.Mathlib.Nat.{mod-eq_of_lt, add-mod_right, mod_self, mul-le-mul_right}
use ytorrent.Base.{
  ℕ, zero, suc, ◌+◌, ◌-◌, ◌*◌, ◌%◌, ◌^◌, ◌≤◌, ◌<◌, min, ◌≡◌, refl, ap, sym, ◌∙◌, List, [], ◌∷◌,
  Bool, true, false, ◌==◌, if◌then◌else◌, if-elim, if-cases, same_of_test, test_of_same, inl, inr,
  Bool-cases, length, dec_lt, arith, done,
}
use ytorrent.Client.{Torrent, Piece}
use ytorrent.Torrent.Sizes.{piece_size}
use ytorrent.Torrent.Query.{TrackerEvent, sum_finished, build_tracker_query}
use ytorrent.Soundness.{count_finished}
use ytorrent.Soundness.Store.{count_finished-le}

-- The pieces cover the file: `k` whole ones, and a last one with the `r` bytes that are left.
pub record Covers (k r : ℕ) (t : Torrent) : Type 0 where
  pub pieces : length t.pieces ≡ suc k
  pub size : t.total_size ≡ k * t.piece_length + r
  pub some_left : 0 < r
  pub no_more : r ≤ t.piece_length
  pub countable : length t.pieces < 2 ^ 64
  pub addressable : t.total_size < 2 ^ 64

remainder : (k r b : ℕ) → r < b → (k * b + r) % b ≡ r
remainder zero r b h = ap (λ n. n % b) {x = 0 * b + r} {y = r} (omega arith) ∙ mod-eq_of_lt h
remainder (suc k) r b h =
    ap (λ n. n % b) {x = suc k * b + r} {y = (k * b + r) + b} (omega arith)
    ∙ add-mod_right (k * b + r) b
    ∙ remainder k r b h

no_remainder : (k b : ℕ) → (k * b + b) % b ≡ 0
no_remainder zero b = ap (λ n. n % b) {x = 0 * b + b} {y = b} (omega arith) ∙ mod_self b
no_remainder (suc k) b =
    ap (λ n. n % b) {x = suc k * b + b} {y = (k * b + b) + b} (omega arith)
    ∙ add-mod_right (k * b + b) b
    ∙ no_remainder k b

below : (i k b : ℕ) → i < k → i * b + b ≤ k * b
below i k b h = omega (arith, mul-le-mul_right {m = suc i} {n = k} b (omega arith))

-- Piece `i` has the bytes of the file from its place on, as many as a piece has.
abbrev pub bytes_of_piece : Torrent → ℕ → ℕ
bytes_of_piece t i = min t.piece_length (t.total_size - i * t.piece_length)

last_size :
    (k r : ℕ) (t : Torrent)
    → Covers k r t
    → (if t.total_size % t.piece_length == 0
        then done t.piece_length
        else done (t.total_size % t.piece_length))
      ≡ done r
last_size k r t v =
    if-cases (λ m. m ≡ done r) (t.total_size % t.piece_length == 0)
      (λ e. ap done (whole (same_of_test (t.total_size % t.piece_length) 0 e)))
      (λ e.
        ap done (part (λ z. absurd (differs (test_of_same (t.total_size % t.piece_length) 0 z) e))))
  where
    differs : {b : Bool} → b ≡ true → b ≡ false → ⊥
    differs h i = cc

    left : r < t.piece_length → t.total_size % t.piece_length ≡ r
    left h = ap (λ n. n % t.piece_length) v.size ∙ remainder k r t.piece_length h

    whole : t.total_size % t.piece_length ≡ 0 → t.piece_length ≡ r
    whole z = elim (dec_lt r t.piece_length) [
      | yes h ↦ absurd (omega (arith, left h, v.some_left))
      | no h ↦ omega (arith, v.no_more)
    ]

    part : (t.total_size % t.piece_length ≡ 0 → ⊥) → t.total_size % t.piece_length ≡ r
    part nz = elim (dec_lt r t.piece_length) [
      | yes h ↦ left h
      | no h ↦
          let same : r ≡ t.piece_length = omega (arith, v.no_more) in
          absurd (
            nz (
              ap (λ n. n % t.piece_length) (v.size ∙ ap (λ n. k * t.piece_length + n) same)
              ∙ no_remainder k t.piece_length))
    ]

-- The index that pieceSize compares with.
last_index : (k n : ℕ) → n ≡ suc k → n < 2 ^ 64 → (n + 2 ^ 64 - 1) % 2 ^ 64 ≡ k
last_index k n e h = omega arith

differs : {b : Bool} → b ≡ true → b ≡ false → ⊥
differs h i = cc

-- Where the pieces cover the file, pieceSize gives the bytes of the file from the piece's place on, as many
-- as a piece has.
pub piece_size-bytes_of_piece :
    (k r i : ℕ) (t : Torrent)
    → Covers k r t
    → i < length t.pieces
    → piece_size t i ≡ done (bytes_of_piece t i)
unfolding piece_size
piece_size-bytes_of_piece k r i t v h =
    let last = last_index k (length t.pieces) v.pieces v.countable in
    if-cases (λ m. m ≡ done (bytes_of_piece t i)) (i == (length t.pieces + 2 ^ 64 - 1) % 2 ^ 64)
      (λ e.
        let at : i ≡ k = same_of_test i ((length t.pieces + 2 ^ 64 - 1) % 2 ^ 64) e ∙ last in
        let place : i * t.piece_length ≡ k * t.piece_length = ap (λ n. n * t.piece_length) at in
        if-cases (λ m. m ≡ done (bytes_of_piece t i)) (t.piece_length == 0)
          (λ z. absurd (omega (arith, same_of_test t.piece_length 0 z, v.no_more, v.some_left)))
          (λ _. last_size k r t v ∙ ap done (omega (arith, place, v.size, v.no_more))))
      (λ e.
        let before : i < k = elim (dec_lt i k) [
          | yes less ↦ less
          | no not_less ↦
              let at : i ≡ k = omega (arith, v.pieces) in
              absurd (
                differs (test_of_same i ((length t.pieces + 2 ^ 64 - 1) % 2 ^ 64) (at ∙ sym last))
                  e)
        ] in
        ap done (omega (arith, below i k t.piece_length before, v.size)))

-- The bytes of the finished pieces from piece `i` on.
abbrev pub finished_bytes : Torrent → ℕ → List Piece → ℕ
finished_bytes t i [] = 0
finished_bytes t i (p ∷ ps) =
    (if p.finished then bytes_of_piece t i else 0) + finished_bytes t (suc i) ps

next_place : (i b : ℕ) → suc i * b ≡ i * b + b
next_place i b = omega arith

finished_bytes-le :
    (t : Torrent) (i : ℕ) (ps : List Piece)
    → finished_bytes t i ps ≤ t.total_size - i * t.piece_length
finished_bytes-le t i [] = omega arith
finished_bytes-le t i (p ∷ ps) =
    let rest = finished_bytes-le t (suc i) ps in
    if-elim (λ n. n + finished_bytes t (suc i) ps ≤ t.total_size - i * t.piece_length) p.finished
      (omega (arith, rest, next_place i t.piece_length))
      (omega (arith, rest, next_place i t.piece_length))

sum_finished-bytes :
    (k r i s : ℕ) (t : Torrent) (ps : List Piece)
    → Covers k r t
    → i + length ps ≡ length t.pieces
    → s + finished_bytes t i ps < 2 ^ 64
    → sum_finished t i ps s ≡ done (s + finished_bytes t i ps)
unfolding sum_finished
sum_finished-bytes k r i s t [] v at small = ap done (omega arith)
sum_finished-bytes k r i s t (p ∷ ps) v at small = elim (Bool-cases p.finished) [
  | inl f ↦
      let fits : s + (bytes_of_piece t i + finished_bytes t (suc i) ps) < 2 ^ 64 = rw f at small in
      let sum : (s + bytes_of_piece t i) % 2 ^ 64 ≡ s + bytes_of_piece t i = omega (arith, fits) in
      rw (f, piece_size-bytes_of_piece k r i t v (omega arith), sum)
        (sum_finished-bytes k r (suc i) (s + bytes_of_piece t i) t ps v (omega arith)
            (omega (arith, fits))
          ∙ ap done (omega arith))
  | inr f ↦
      let fits : s + (0 + finished_bytes t (suc i) ps) < 2 ^ 64 = rw f at small in
      rw f (
        sum_finished-bytes k r (suc i) s t ps v (omega arith) (omega (arith, fits))
        ∙ ap done (omega arith))
]

-- Where the pieces cover the file, a query reports the bytes of the finished pieces, no more than the file
-- has, and what is left of the file; neither number wraps around.
pub build_tracker_query-bytes :
    (k r : ℕ) (event : TrackerEvent) (t : Torrent)
    → Covers k r t
    → (build_tracker_query event t
        ≡ done (record {
          event = event;
          downloaded = finished_bytes t 0 t.pieces;
          uploaded = 0;
          remaining = t.total_size - finished_bytes t 0 t.pieces;
        }))
      × (finished_bytes t 0 t.pieces ≤ t.total_size)
unfolding build_tracker_query
build_tracker_query-bytes k r event t v =
    let le : finished_bytes t 0 t.pieces ≤ t.total_size =
      omega (arith, finished_bytes-le t 0 t.pieces) in
    let left : (t.total_size + 2 ^ 64 - finished_bytes t 0 t.pieces) % 2 ^ 64
        ≡ t.total_size - finished_bytes t 0 t.pieces =
      omega (arith, le, v.addressable) in
    let sum : sum_finished t 0 t.pieces 0 ≡ done (finished_bytes t 0 t.pieces) =
      sum_finished-bytes k r 0 0 t t.pieces v (omega arith) (omega (arith, le, v.addressable))
      ∙ ap done (omega arith) in
    (rw (sum, left) refl, le)

all_finished-bytes :
    (k r i : ℕ) (t : Torrent) (ps : List Piece)
    → Covers k r t
    → i + length ps ≡ length t.pieces
    → count_finished ps ≡ length ps
    → finished_bytes t i ps ≡ t.total_size - i * t.piece_length
all_finished-bytes k r i t [] v at all =
    let end : i * t.piece_length ≡ suc k * t.piece_length =
      ap (λ n. n * t.piece_length) {x = i} {y = suc k} (omega (arith, v.pieces)) in
    omega (arith, end, next_place k t.piece_length, v.size, v.no_more)
all_finished-bytes k r i t (p ∷ ps) v at all = elim (Bool-cases p.finished) [
  | inl f ↦
      let counted : 1 + count_finished ps ≡ length (p ∷ ps) = rw f at all in
      rw f (
        omega (
          arith,
          next_place i t.piece_length,
          all_finished-bytes k r (suc i) t ps v (omega arith) (omega (arith, counted)),
        ))
  | inr f ↦
      let counted : 0 + count_finished ps ≡ length (p ∷ ps) = rw f at all in
      absurd (omega (arith, counted, count_finished-le ps))
]

-- With all pieces finished, a query reports the whole file as downloaded, and nothing as left.
pub build_tracker_query-whole :
    (k r : ℕ) (event : TrackerEvent) (t : Torrent)
    → Covers k r t
    → count_finished t.pieces ≡ length t.pieces
    → build_tracker_query event t
      ≡ done (record { event = event; downloaded = t.total_size; uploaded = 0; remaining = 0 })
build_tracker_query-whole k r event t v all =
    let whole : finished_bytes t 0 t.pieces ≡ t.total_size =
      all_finished-bytes k r 0 t t.pieces v (omega arith) all ∙ omega arith in
    let none_left : t.total_size - t.total_size ≡ 0 = omega arith in
    rw (whole, none_left) at (build_tracker_query-bytes k r event t v).0
