-- ===== src/Torrent/Bitfield/Bytes.antt =====
-- The bit field as bytes, Torrent::getRawBitfield of src/torrent/torrent.cpp, and the pieces that
-- Peer::handleMessage of src/torrent/peer.cpp reads from them.
use mathlib.Core.List.{append_assoc, append-nil}
use ytorrent.Base.{
  ℕ, zero, suc, ◌+◌, ◌-◌, ◌*◌, ◌^◌, ◌≤◌, ◌<◌, bit_and, ◌≡◌, refl, ap, sym, ◌∙◌, List, [], ◌∷◌, ◌++◌,
  Bool, true, false, not, ◌&&◌, ◌==◌, ltb, lt→ltb, if◌then◌else◌, Bool-cases, inl, inr, map, take,
  drop, length, replicate, take-append-drop, length-take, length-drop, length-replicate,
  length-append, drop_all, arith, done,
}
use ytorrent.Torrent.Bitfield.{reverse_bits}
use ytorrent.Peer.Messages.{add_bits, add_bytes}

-- A block of a dynamic_bitset: the first bit is the lowest one.
abbrev pub byte_of : List Bool → ℕ
byte_of [] = 0
byte_of (b ∷ bs) = (if b then 1 else 0) + 2 * byte_of bs

-- to_block_range as boost documents it: 8 bits a block, and zeros behind the last one.
abbrev pub blocks_of : ℕ → List Bool → List ℕ
blocks_of zero bits = []
blocks_of (suc n) bits = byte_of (take 8 bits) ∷ blocks_of n (drop 8 bits)

-- The places of the bits that are set, from `i` on.
abbrev pub indexes : ℕ → List Bool → List ℕ
indexes i [] = []
indexes i (b ∷ bs) = if b then i ∷ indexes (suc i) bs else indexes (suc i) bs

abbrev indexes_below : ℕ → ℕ → List Bool → List ℕ
indexes_below total i [] = []
indexes_below total i (b ∷ bs) =
    if b && ltb i total then i ∷ indexes_below total (suc i) bs else indexes_below total (suc i) bs

-- The bits of a byte as the message is read, the highest first.
abbrev flags_from : ℕ → ℕ → ℕ → List Bool
flags_from zero j b = []
flags_from (suc n) j b = not (bit_and b (2 ^ (7 - j)) == 0) ∷ flags_from n (suc j) b

add_bits-indexes_below :
    (n j b i total : ℕ) (has : List ℕ)
    → add_bits n j b i total has ≡ has ++ indexes_below total (i * 8 + j) (flags_from n j b)
unfolding add_bits
add_bits-indexes_below zero j b i total has = sym (append-nil has)
add_bits-indexes_below (suc n) j b i total has = elim (Bool-cases (bit_and b (2 ^ (7 - j)) == 0)) [
  | inl e ↦ rw e (
      add_bits-indexes_below n (suc j) b i total has
      ∙ ap (λ k. has ++ indexes_below total k (flags_from n (suc j) b)) {x = i * 8 + suc j}
          {y = suc (i * 8 + j)} (omega arith))
  | inr e ↦ elim (Bool-cases (ltb (i * 8 + j) total)) [
    | inl f ↦
        rw (e, f)
          (add_bits-indexes_below n (suc j) b i total (has ++ (i * 8 + j) ∷ [])
            ∙ ap (λ k. (has ++ (i * 8 + j) ∷ []) ++ indexes_below total k (flags_from n (suc j) b))
                {x = i * 8 + suc j} {y = suc (i * 8 + j)} (omega arith)
            ∙ append_assoc has ((i * 8 + j) ∷ [])
                (indexes_below total (suc (i * 8 + j)) (flags_from n (suc j) b)))
    | inr f ↦
        rw (e, f)
          (add_bits-indexes_below n (suc j) b i total has
            ∙ ap (λ k. has ++ indexes_below total k (flags_from n (suc j) b)) {x = i * 8 + suc j}
                {y = suc (i * 8 + j)} (omega arith))
  ]
]

-- A test of all lists of `n` bits.
abbrev all_of : ℕ → (List Bool → Bool) → Bool
all_of zero test = test []
all_of (suc n) test = all_of n (λ bs. test (true ∷ bs)) && all_of n (λ bs. test (false ∷ bs))

both : (a b : Bool) → (a && b) ≡ true → (a ≡ true) × (b ≡ true)
both true b e = (refl, e)
both false b e = absurd (cc e)

all_of_each :
    (n : ℕ) (test : List Bool → Bool) (bs : List Bool)
    → all_of n test ≡ true
    → length bs ≡ n
    → test bs ≡ true
all_of_each zero test [] e h = e
all_of_each zero test (b ∷ bs) e h = absurd (omega arith)
all_of_each (suc n) test [] e h = absurd (omega arith)
all_of_each (suc n) test (true ∷ bs) e h =
    all_of_each n (λ xs. test (true ∷ xs)) bs (both _ _ e).0 (omega arith)
all_of_each (suc n) test (false ∷ bs) e h =
    all_of_each n (λ xs. test (false ∷ xs)) bs
      (both (all_of n (λ xs. test (true ∷ xs))) (all_of n (λ xs. test (false ∷ xs))) e).1
      (omega arith)

abbrev same_bits : List Bool → List Bool → Bool
same_bits [] [] = true
same_bits [] (b ∷ bs) = false
same_bits (a ∷ xs) [] = false
same_bits (true ∷ xs) (b ∷ bs) = b && same_bits xs bs
same_bits (false ∷ xs) (b ∷ bs) = not b && same_bits xs bs

same_bits_eq : (xs bs : List Bool) → same_bits xs bs ≡ true → xs ≡ bs
same_bits_eq [] [] e = refl
same_bits_eq [] (b ∷ bs) e = absurd (cc e)
same_bits_eq (a ∷ xs) [] e = absurd (cc e)
same_bits_eq (true ∷ xs) (true ∷ bs) e = ap (λ t. true ∷ t) (same_bits_eq xs bs e)
same_bits_eq (true ∷ xs) (false ∷ bs) e = absurd (cc e)
same_bits_eq (false ∷ xs) (true ∷ bs) e = absurd (cc e)
same_bits_eq (false ∷ xs) (false ∷ bs) e = ap (λ t. false ∷ t) (same_bits_eq xs bs e)

abbrev survives : List Bool → Bool
survives bs = same_bits (flags_from 8 0 (reverse_bits (byte_of bs))) bs

all_survive : all_of 8 survives ≡ true
unfolding reverse_bits
all_survive = refl

-- A byte of eight bits is read back as those bits.
flags_from-byte_of :
    (bs : List Bool) → length bs ≡ 8 → flags_from 8 0 (reverse_bits (byte_of bs)) ≡ bs
flags_from-byte_of bs h =
    same_bits_eq (flags_from 8 0 (reverse_bits (byte_of bs))) bs
      (all_of_each 8 survives bs all_survive h)

-- Zeros behind the bits change neither the byte nor the places.
byte_of-zeros : (k : ℕ) → byte_of (replicate k false) ≡ 0
byte_of-zeros zero = refl
byte_of-zeros (suc k) = omega (arith, byte_of-zeros k)

byte_of-padded : (bs : List Bool) (k : ℕ) → byte_of (bs ++ replicate k false) ≡ byte_of bs
byte_of-padded [] k = byte_of-zeros k
byte_of-padded (b ∷ bs) k = ap (λ n. (if b then 1 else 0) + 2 * n) (byte_of-padded bs k)

indexes_below-zeros : (total i k : ℕ) → indexes_below total i (replicate k false) ≡ []
indexes_below-zeros total i zero = refl
indexes_below-zeros total i (suc k) = indexes_below-zeros total (suc i) k

indexes_below-padded :
    (total i : ℕ) (bs : List Bool) (k : ℕ)
    → i + length bs ≤ total
    → indexes_below total i (bs ++ replicate k false) ≡ indexes i bs
indexes_below-padded total i [] k h = indexes_below-zeros total i k
indexes_below-padded total i (false ∷ bs) k h =
    indexes_below-padded total (suc i) bs k (omega arith)
indexes_below-padded total i (true ∷ bs) k h =
    rw (lt→ltb i total (omega arith))
      (ap (λ t. i ∷ t) (indexes_below-padded total (suc i) bs k (omega arith)))

-- A byte of at most eight bits adds the places of those that are set.
add_bits-byte_of :
    (bs : List Bool) (i total : ℕ) (has : List ℕ)
    → length bs ≤ 8
    → i * 8 + length bs ≤ total
    → add_bits 8 0 (reverse_bits (byte_of bs)) i total has ≡ has ++ indexes (i * 8) bs
add_bits-byte_of bs i total has short fits =
    let k = 8 - length bs in
    let whole = bs ++ replicate k false in
    let eight : length whole ≡ 8 =
      omega (arith, length-append bs (replicate k false), length-replicate k false) in
    ap (λ n. add_bits 8 0 (reverse_bits n) i total has) (sym (byte_of-padded bs k))
    ∙ add_bits-indexes_below 8 0 (reverse_bits (byte_of whole)) i total has
    ∙ ap (λ fs. has ++ indexes_below total (i * 8 + 0) fs) (flags_from-byte_of whole eight)
    ∙ ap (λ n. has ++ indexes_below total n whole) {x = i * 8 + 0} {y = i * 8} (omega arith)
    ∙ ap (λ t. has ++ t) (indexes_below-padded total (i * 8) bs k fits)

indexes-append :
    (i : ℕ) (xs ys : List Bool) → indexes i (xs ++ ys) ≡ indexes i xs ++ indexes (i + length xs) ys
indexes-append i [] ys = ap (λ n. indexes n ys) {x = i} {y = i + 0} (omega arith)
indexes-append i (false ∷ xs) ys =
    indexes-append (suc i) xs ys
    ∙ ap (λ n. indexes (suc i) xs ++ indexes n ys) {x = suc i + length xs} {y = i + suc (length xs)}
        (omega arith)
indexes-append i (true ∷ xs) ys =
    ap (λ t. i ∷ t)
      (indexes-append (suc i) xs ys
        ∙ ap (λ n. indexes (suc i) xs ++ indexes n ys) {x = suc i + length xs}
            {y = i + suc (length xs)} (omega arith))

-- The places of the first eight bits and of those behind them.
indexes-eight :
    (i : ℕ) (bits : List Bool)
    → 8 ≤ length bits
    → indexes (i * 8) (take 8 bits) ++ indexes (suc i * 8) (drop 8 bits) ≡ indexes (i * 8) bits
indexes-eight i bits long =
    ap (λ n. indexes (i * 8) (take 8 bits) ++ indexes n (drop 8 bits)) {x = suc i * 8}
      {y = i * 8 + length (take 8 bits)} (omega (arith, length-take 8 bits))
    ∙ sym (indexes-append (i * 8) (take 8 bits) (drop 8 bits))
    ∙ ap (indexes (i * 8)) (take-append-drop 8 bits)

take_short : (n : ℕ) (bits : List Bool) → length bits ≤ n → take n bits ≡ bits
take_short n bits short =
    sym (append-nil (take n bits))
    ∙ ap (λ t. take n bits ++ t) (sym (drop_all n bits short))
    ∙ take-append-drop n bits

-- The loop over the bytes adds the places of all bits that are set.
pub add_bytes-blocks_of :
    (n i total : ℕ) (bits : List Bool) (has : List ℕ)
    → length bits ≤ n * 8
    → n * 8 < length bits + 8
    → i * 8 + length bits ≤ total
    → add_bytes n i (map reverse_bits (blocks_of n bits)) total has
      ≡ done (has ++ indexes (i * 8) bits)
unfolding add_bytes
add_bytes-blocks_of zero i total [] has h tight fits = ap done (sym (append-nil has))
add_bytes-blocks_of zero i total (b ∷ bits) has h tight fits = absurd (omega arith)
add_bytes-blocks_of (suc zero) i total bits has h tight fits =
    ap (λ bs. done (add_bits 8 0 (reverse_bits (byte_of bs)) i total has))
      (take_short 8 bits (omega arith))
    ∙ ap done (add_bits-byte_of bits i total has (omega arith) fits)
add_bytes-blocks_of (suc (suc n)) i total bits has h tight fits =
    let size = length-take 8 bits in
    let rest = length-drop 8 bits in
    ap (λ l. add_bytes (suc n) (suc i) (map reverse_bits (blocks_of (suc n) (drop 8 bits))) total l)
      (add_bits-byte_of (take 8 bits) i total has (omega (arith, size)) (omega (arith, size)))
    ∙ add_bytes-blocks_of (suc n) (suc i) total (drop 8 bits) (has ++ indexes (i * 8) (take 8 bits))
        (omega (arith, rest)) (omega (arith, rest)) (omega (arith, rest))
    ∙ ap done (
        append_assoc has (indexes (i * 8) (take 8 bits)) (indexes (suc i * 8) (drop 8 bits))
        ∙ ap (λ t. has ++ t) (indexes-eight i bits (omega arith)))
