-- ===== src/Peer/Assembly.antt =====
-- The blocks of a piece put together again: Peer::Piece of src/torrent/peer.hpp and the PIECE_BLOCK case of
-- src/torrent/peer.cpp.
use ytorrent.Base.{
  take-nil, drop-nil, take_all, drop_all, ℕ, zero, suc, ◌+◌, ◌-◌, ◌*◌, ◌<◌, ◌≤◌, min, ◌≡◌, ◌⊎◌, inl,
  inr, refl, ap, ap₂, sym, ◌∙◌, List, [], ◌∷◌, some, true, false, ◌==◌, Bool-cases, take, drop,
  length, subst, leb, if-cases, set, get_elem?, length-set, get_elem?-set_self, get_elem?-set_ne,
  length-replicate, length-take, take-append-drop, length-drop, arith, done,
}
use ytorrent.Client.{Block, QueuedPiece, max_block_request_size, has_piece}
use ytorrent.Peer.Request.{num_blocks, empty_block, new_queued_piece}
use ytorrent.Peer.Blocks.{read_block, block_bytes, assemble, store_block}

-- The bytes from `begin` on, `size` of them.
abbrev pub slice : List ℕ → ℕ → ℕ → List ℕ
slice bytes begin size = take size (drop begin bytes)

abbrev pub block_size : List ℕ → ℕ → ℕ
block_size bytes i = min max_block_request_size (length bytes - i * max_block_request_size)

-- Block `i` of a piece that is `bytes`.
unfoldable pub block_of : List ℕ → ℕ → Block
block_of bytes i = record {
  size = block_size bytes i;
  contents = some (slice bytes (i * max_block_request_size) (block_size bytes i));
}

unfoldable blocks_from : List ℕ → ℕ → ℕ → List Block
blocks_from bytes i zero = []
blocks_from bytes i (suc n) = block_of bytes i ∷ blocks_from bytes (suc i) n

take-min : (n k : ℕ) (xs : List ℕ) → k ≡ min n (length xs) → take k xs ≡ take n xs
take-min n k [] e = take-nil k ∙ sym (take-nil n)
take-min zero zero (x ∷ xs) e = refl
take-min zero (suc k) (x ∷ xs) e = absurd (omega arith)
take-min (suc n) zero (x ∷ xs) e = absurd (omega arith)
take-min (suc n) (suc k) (x ∷ xs) e = ap (λ t. x ∷ t) (take-min n k xs (omega arith))

drop-drop : (m n k : ℕ) (xs : List ℕ) → k ≡ n + m → drop m (drop n xs) ≡ drop k xs
drop-drop m zero k xs e = ap (λ j. drop j xs) {x = m} {y = k} (omega arith)
drop-drop m (suc n) k [] e = drop-nil m ∙ sym (drop-nil k)
drop-drop m (suc n) zero (x ∷ xs) e = absurd (omega arith)
drop-drop m (suc n) (suc k) (x ∷ xs) e = drop-drop m n k xs (omega arith)

read_block-all : (n : ℕ) (xs : List ℕ) → n ≡ length xs → read_block n (some xs) ≡ done xs
unfolding read_block
read_block-all n xs e =
    if-cases (λ m. m ≡ done xs) (leb n (length xs)) (λ _. ap done (take_all n xs e))
      (λ no_room. absurd (ground arith))

block_bytes-block_of :
    (bytes : List ℕ) (i : ℕ)
    → block_bytes (block_of bytes i)
      ≡ done (take max_block_request_size (drop (i * max_block_request_size) bytes))
unfolding block_bytes block_of
block_bytes-block_of bytes i =
    let rest = drop (i * max_block_request_size) bytes in
    let room = length-drop (i * max_block_request_size) bytes in
    read_block-all (block_size bytes i) (take (block_size bytes i) rest)
      (omega (arith, length-take (block_size bytes i) rest, room))
    ∙ ap done (take-min max_block_request_size (block_size bytes i) rest (omega (arith, room)))

assemble-blocks_from :
    (bytes : List ℕ) (i n : ℕ)
    → length bytes ≤ (i + n) * max_block_request_size
    → assemble (blocks_from bytes i n) ≡ done (drop (i * max_block_request_size) bytes)
unfolding assemble blocks_from
assemble-blocks_from bytes i zero h =
    ap done (sym (drop_all (i * max_block_request_size) bytes (omega arith)))
assemble-blocks_from bytes i (suc n) h =
    let rest = drop (i * max_block_request_size) bytes in
    rw
      (
        block_bytes-block_of bytes i,
        assemble-blocks_from bytes (suc i) n (omega arith),
        sym (
            drop-drop max_block_request_size (i * max_block_request_size)
              (suc i * max_block_request_size) bytes (omega arith)),
      )
      (ap done (take-append-drop max_block_request_size rest))

-- The blocks of a piece are stored in the order of a list, each of them at its index.
unfoldable pub deliver : List ℕ → List ℕ → QueuedPiece → QueuedPiece
deliver bytes [] q = q
deliver bytes (i ∷ rest) q =
    deliver bytes rest (store_block i (block_of bytes i).size (block_of bytes i).contents q)

length-deliver :
    (bytes order : List ℕ) (q : QueuedPiece)
    → length (deliver bytes order q).blocks ≡ length q.blocks
unfolding deliver store_block
length-deliver bytes [] q = refl
length-deliver bytes (i ∷ rest) q =
    length-deliver bytes rest (store_block i (block_of bytes i).size (block_of bytes i).contents q)
    ∙ length-set q.blocks i (block_of bytes i)

has_piece-later :
    (j i : ℕ) (rest : List ℕ)
    → (j == i) ≡ false
    → has_piece (j ∷ rest) i ≡ true
    → has_piece rest i ≡ true
unfolding has_piece
has_piece-later j i rest e h = simp e at h

same_index : (j i : ℕ) → (j == i) ≡ true → i ≡ j
same_index j i e = ground arith

set-stored :
    (bytes : List ℕ) (blocks : List Block) (j i : ℕ) (rest : List ℕ)
    → i < length blocks
    → (has_piece (j ∷ rest) i ≡ true) ⊎ (get_elem? blocks i ≡ some (block_of bytes i))
    → (has_piece rest i ≡ true)
      ⊎ (get_elem? (set blocks j (block_of bytes j)) i ≡ some (block_of bytes i))
set-stored bytes blocks j i rest h stored = elim (Bool-cases (j == i)) [
  | inl e ↦ inr (
      subst (λ k. get_elem? (set blocks k (block_of bytes k)) i ≡ some (block_of bytes i))
        (same_index j i e) (get_elem?-set_self blocks i (block_of bytes i) h))
  | inr e ↦ elim stored [
    | inl asked ↦ inl (has_piece-later j i rest e asked)
    | inr here ↦
        inr (get_elem?-set_ne blocks (block_of bytes j) (λ same. absurd (ground arith)) ∙ here)
  ]
]

deliver-stored :
    (bytes order : List ℕ) (q : QueuedPiece) (i : ℕ)
    → i < length q.blocks
    → (has_piece order i ≡ true) ⊎ (get_elem? q.blocks i ≡ some (block_of bytes i))
    → get_elem? (deliver bytes order q).blocks i ≡ some (block_of bytes i)
unfolding deliver store_block has_piece
deliver-stored bytes [] q i h (inl e) = absurd (cc e)
deliver-stored bytes [] q i h (inr e) = e
deliver-stored bytes (j ∷ rest) q i h stored =
    deliver-stored bytes rest (store_block j (block_of bytes j).size (block_of bytes j).contents q)
      i (omega (arith, length-set q.blocks j (block_of bytes j)))
      (set-stored bytes q.blocks j i rest h stored)

some_injective : {a b : Block} → some a ≡ some b → a ≡ b
some_injective e = cc

enough_blocks : (n : ℕ) → n ≤ (0 + num_blocks n) * max_block_request_size
unfolding num_blocks
enough_blocks n = omega arith

list_ext :
    (xs ys : List Block)
    → length xs ≡ length ys
    → ((i : ℕ) → i < length xs → get_elem? xs i ≡ get_elem? ys i)
    → xs ≡ ys
list_ext [] [] e h = refl
list_ext [] (y ∷ ys) e h = absurd (omega arith)
list_ext (x ∷ xs) [] e h = absurd (omega arith)
list_ext (x ∷ xs) (y ∷ ys) e h =
    ap₂ (λ b t. b ∷ t) (some_injective (h 0 (omega arith)))
      (list_ext xs ys (omega arith) (λ i small. h (suc i) (omega arith)))

length-blocks_from : (bytes : List ℕ) (i n : ℕ) → length (blocks_from bytes i n) ≡ n
unfolding blocks_from
length-blocks_from bytes i zero = refl
length-blocks_from bytes i (suc n) = ap suc (length-blocks_from bytes (suc i) n)

get_elem?-blocks_from :
    (bytes : List ℕ) (i n j k : ℕ)
    → j < n
    → k ≡ i + j
    → get_elem? (blocks_from bytes i n) j ≡ some (block_of bytes k)
unfolding blocks_from
get_elem?-blocks_from bytes i zero j k h e = absurd (omega arith)
get_elem?-blocks_from bytes i (suc n) zero k h e =
    ap (λ l. some (block_of bytes l)) {x = i} {y = k} (omega arith)
get_elem?-blocks_from bytes i (suc n) (suc j) k h e =
    get_elem?-blocks_from bytes (suc i) n j k (omega arith) (omega arith)

-- Once each block was stored, in whatever order, they make up the piece.
pub assemble-deliver :
    (bytes order : List ℕ) (index : ℕ)
    → ((i : ℕ) → i < num_blocks (length bytes) → has_piece order i ≡ true)
    → assemble (deliver bytes order (new_queued_piece index (length bytes))).blocks ≡ done bytes
unfolding new_queued_piece
assemble-deliver bytes order index all =
    let n = num_blocks (length bytes) in
    let q = new_queued_piece index (length bytes) in
    let room = length-replicate n empty_block in
    ap assemble (
      list_ext (deliver bytes order q).blocks (blocks_from bytes 0 n)
        (length-deliver bytes order q ∙ room ∙ sym (length-blocks_from bytes 0 n))
        (λ i h.
          deliver-stored bytes order q i (omega (arith, length-deliver bytes order q, room))
            (inl (all i (omega (arith, length-deliver bytes order q, room))))
          ∙ sym (
              get_elem?-blocks_from bytes 0 n i i
                (omega (arith, length-deliver bytes order q, room)) (omega arith))))
    ∙ assemble-blocks_from bytes 0 n (enough_blocks (length bytes))
