-- ===== src/Peer/Wire/Chunks.antt =====
-- sendPieceBlock and the PIECE_BLOCK case of handleMessage, src/torrent/peer.cpp.
use ytorrent.Base.{
  take_all, ℕ, ◌+◌, ◌-◌, ◌%◌, ◌^◌, ◌<◌, ◌≤◌, ◌≡◌, refl, ap, ap₂, ◌∙◌, List, [], ◌∷◌, ◌++◌, some,
  zero, suc, false, ltb, ◌||◌, ◌==◌, if-cases, tests, take, leb, length, arith, done,
}
use ytorrent.Utils.Transcoder.{write_as_be32}
use ytorrent.Net.Incoming.{IncomingMessage, incoming_message, cpy_buffer, get_size}
use ytorrent.Net.Outgoing.{add_custom, add_u8, add_u32}
use ytorrent.Peer.MessageId
use ytorrent.Client.{Client, Platform, max_block_request_size}
use ytorrent.Peer.Send.{piece_block_message}
use ytorrent.Peer.Blocks.{take_block, find_queued, on_piece_block}
use ytorrent.Peer.Dispatch.{handle_body, size_minus_one, handle_message}
use ytorrent.Peer.Wire.{
  word, receive, drop_two, message_of, second_cursor, extract_first, extract_second, receive-frame,
}

block_bytes_of :
    (index begin : ℕ) (block : List ℕ) (size : ℕ)
    → (piece_block_message index begin block size).data_buffer
      ≡ word ((9 + size) % 2 ^ 32)
        ++ (MessageId.piece_block ∷ (word index ++ (word begin ++ take size block)))
unfolding piece_block_message add_u32 add_u8 add_custom write_as_be32
block_bytes_of index begin block size = refl

take-after : (xs ys : List ℕ) (n m : ℕ) → m ≡ length xs + n → take m (xs ++ ys) ≡ xs ++ take n ys
take-after [] ys n m e = ap (λ k. take k ys) {x = m} {y = n} (omega arith)
take-after (x ∷ xs) ys n zero e = absurd (omega arith)
take-after (x ∷ xs) ys n (suc m) e = ap (λ t. x ∷ t) (take-after xs ys n m (omega arith))

take-block :
    (index begin n : ℕ) (block : List ℕ)
    → take (9 + n) (MessageId.piece_block ∷ (word index ++ (word begin ++ block)))
      ≡ MessageId.piece_block ∷ (word index ++ (word begin ++ take n block))
unfolding write_as_be32
take-block index begin n block =
    take-after (MessageId.piece_block ∷ (word index ++ word begin)) block n (9 + n) (omega arith)

block_size_mod : (n : ℕ) → n ≤ max_block_request_size → (9 + n) % 2 ^ 32 ≡ 9 + n
block_size_mod n h = omega arith

block_frame :
    (index begin : ℕ) (block : List ℕ)
    → length block ≤ max_block_request_size
    → (piece_block_message index begin block (length block)).data_buffer
      ≡ word (9 + length block) ++ (MessageId.piece_block ∷ (word index ++ (word begin ++ block)))
block_frame index begin block small =
    block_bytes_of index begin block (length block)
    ∙ ap₂ (λ n t. word n ++ (MessageId.piece_block ∷ (word index ++ (word begin ++ t))))
        (block_size_mod (length block) small) (take_all (length block) block refl)

block_body :
    (index begin : ℕ) (block : List ℕ)
    → take (9 + length block) (MessageId.piece_block ∷ (word index ++ (word begin ++ block)))
      ≡ MessageId.piece_block ∷ (word index ++ (word begin ++ block))
block_body index begin block =
    take-block index begin (length block) block
    ∙ ap (λ t. MessageId.piece_block ∷ (word index ++ (word begin ++ t)))
        (take_all (length block) block refl)

minus_one : (n : ℕ) → size_minus_one (9 + n) ≡ 8 + n
unfolding size_minus_one
minus_one n = ap size_minus_one {x = 9 + n} {y = suc (8 + n)} (omega arith)

minus_eight : (n : ℕ) → 8 + n - 8 ≡ n
minus_eight n = omega arith

block_in_range :
    (n : ℕ) → 0 < n → n ≤ max_block_request_size → (n == 0 || ltb max_block_request_size n) ≡ false
block_in_range n some_bytes small = ground arith

on_piece_block-words :
    (platform : Platform) (p : ℕ) (c : Client) (index begin : ℕ) (block : List ℕ)
    (hi : index < 2 ^ 32) (hb : begin < 2 ^ 32)
    → 0 < length block
    → length block ≤ max_block_request_size
    → on_piece_block platform p
        (incoming_message (word index ++ (word begin ++ block)) (8 + length block))
        c
      ≡ take_block platform p index begin
          (length block)
          (second_cursor index begin block (8 + length block) hi hb)
          (find_queued index (c.peers p).piece_queue)
          c
unfolding on_piece_block get_size message_of
on_piece_block-words platform p c index begin block hi hb some_bytes small =
    let result =
      take_block platform p index begin (length block)
        (second_cursor index begin block (8 + length block) hi hb)
        (find_queued index (c.peers p).piece_queue) c in
    if-cases (λ m. m ≡ result) (ltb (8 + length block) 9) (λ e. absurd (omega tests))
      (λ _.
        rw
          (
            extract_first index begin block (8 + length block) hi hb,
            extract_second index begin block (8 + length block) hi hb,
            minus_eight (length block),
          )
          (if-cases (λ m. m ≡ result)
            (length block == 0 || ltb max_block_request_size (length block))
            (λ e. absurd (cc (e, block_in_range (length block) some_bytes small))) (λ _. refl)))

cpy_buffer-second :
    (index begin : ℕ) (block : List ℕ) (hi : index < 2 ^ 32) (hb : begin < 2 ^ 32)
    → length block ≤ max_block_request_size
    → cpy_buffer (length block) (second_cursor index begin block (8 + length block) hi hb)
      ≡ done (some block)
unfolding cpy_buffer second_cursor message_of
cpy_buffer-second index begin block hi hb small =
    if-cases (λ m. m ≡ done (some block)) (ltb (8 + length block) ((8 + length block) % 2 ^ 64))
      (λ e. absurd (omega tests))
      (λ _. rw (drop_two index begin block) (
        if-cases (λ m. m ≡ done (some block)) (leb (length block) (length block))
          (λ _. ap (λ t. done (some t)) (take_all (length block) block refl))
          (λ e. absurd (ground arith))))

-- The bytes of sendPieceBlock for a block of 1 byte to 16 KiB that is there in full reach the handler
-- as that block: the piece of that index is looked up, and the block's bytes are what is copied out.
pub block_reaches_take_block :
    (platform : Platform) (p : ℕ) (c : Client) (index begin : ℕ) (block : List ℕ)
    → index < 2 ^ 32
    → begin < 2 ^ 32
    → 0 < length block
    → length block ≤ max_block_request_size
    → (in_msg : IncomingMessage) × (cpy_buffer (length block) in_msg ≡ done (some block))
      × (receive platform p (piece_block_message index begin block (length block)).data_buffer c
          ≡ take_block platform p index begin
              (length block)
              in_msg
              (find_queued index (c.peers p).piece_queue)
              c)
unfolding handle_body handle_message
block_reaches_take_block platform p c index begin block hi hb some_bytes small = (
  second_cursor index begin block (8 + length block) hi hb,
  cpy_buffer-second index begin block hi hb small,
  receive-frame platform p (9 + length block)
        (MessageId.piece_block ∷ (word index ++ (word begin ++ block))) c (omega arith)
        (block_frame index begin block small) (block_body index begin block)
      ∙ ap
          (λ n.
            on_piece_block platform p (incoming_message (word index ++ (word begin ++ block)) n) c)
          (minus_one (length block))
      ∙ on_piece_block-words platform p c index begin block hi hb some_bytes small,
)
