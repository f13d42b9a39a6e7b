-- ===== src/Peer/Wire.antt =====
-- What goes out by src/torrent/peer.cpp's send functions is read back by its handlers.
pub mod Chunks
pub mod Bits
pub mod Requests
pub mod Haves
pub mod Arrivals
pub mod Whole
use ytorrent.Base.{
  ℕ, ◌+◌, ◌-◌, ◌%◌, ◌^◌, ◌<◌, ◌≤◌, ◌≡◌, refl, ap, ap₂, ◌∙◌, List, [], ◌∷◌, ◌++◌, some, none, zero,
  suc, true, false, ltb, ◌||◌, ◌==◌, if-cases, tests, take, drop, length, arith, Outcome, done,
  ◌>>=◌,
}
use native.Mathlib.Numerals.{unary_clauses}
use ytorrent.Utils.Transcoder.{write_as_be32, read_as_be32}
use ytorrent.Utils.Transcoder.RoundTrip.{read_as_be32-write_as_be32}
use ytorrent.Net.Incoming.{
  IncomingMessage, incoming_message, extract_next_u32, cpy_buffer, get_size, get_buffer, advance,
}
use ytorrent.Net.Outgoing.{OutgoingMessage, outgoing_message, add_custom, add_u8, add_u32}
use ytorrent.Peer.MessageId
use ytorrent.Client.{
  Client, Platform, max_block_request_size, modify_peer, test_state, peer_interested, am_choking,
}
use ytorrent.Peer.Send.{have_message, request_message, piece_block_message, bitfield_message}
use ytorrent.Peer.Messages.{extract_three, serve, on_request, on_have, keep_reading, add_index}
use ytorrent.Peer.Blocks.{take_block, find_queued, on_piece_block}
use ytorrent.Peer.Dispatch.{handle_body, size_minus_one, handle_message}

abbrev pub word : ℕ → List ℕ
word n = write_as_be32 n

request_bytes :
    (id index begin size : ℕ)
    → (request_message id index begin size).data_buffer
      ≡ word 13 ++ (id ∷ (word index ++ (word begin ++ word size)))
unfolding request_message add_u32 add_u8 add_custom write_as_be32
request_bytes id index begin size = refl

extract_next_u32-word :
    (m : IncomingMessage) (v : ℕ) (rest : List ℕ)
    → get_buffer m ≡ word v ++ rest
    → v < 2 ^ 32
    → extract_next_u32 m ≡ done (v, advance 4 m)
unfolding extract_next_u32
extract_next_u32-word m v rest e h = rw (e, read_as_be32-write_as_be32 v rest h) refl

drop_one : (a : ℕ) (rest : List ℕ) → drop 4 (word a ++ rest) ≡ rest
unfolding write_as_be32
drop_one a rest = refl

pub drop_two : (a b : ℕ) (rest : List ℕ) → drop 8 (word a ++ (word b ++ rest)) ≡ rest
unfolding write_as_be32
drop_two a b rest = refl

module _ (index begin : ℕ) (rest : List ℕ) (n : ℕ) (hi : index < 2 ^ 32) (hb : begin < 2 ^ 32) where
  unfoldable pub message_of : IncomingMessage
  message_of = incoming_message (word index ++ (word begin ++ rest)) n

  -- The cursor after two numbers.
  unfoldable pub second_cursor : IncomingMessage
  unfolding message_of
  second_cursor = record message_of { read_index = 8 }

  pub extract_first :
      extract_next_u32 message_of ≡ done (index, record message_of { read_index = 4 })
  unfolding message_of advance get_buffer
  extract_first = extract_next_u32-word message_of index (word begin ++ rest) refl hi

  pub extract_second :
      extract_next_u32 (record message_of { read_index = 4 }) ≡ done (begin, second_cursor)
  unfolding message_of advance get_buffer second_cursor
  extract_second =
      extract_next_u32-word (record message_of { read_index = 4 }) begin rest
        (drop_one index (word begin ++ rest)) hb

  pub get_buffer-second : get_buffer second_cursor ≡ rest
  unfolding get_buffer second_cursor message_of
  get_buffer-second = drop_two index begin rest

extract_three-words :
    (index begin size : ℕ)
    → index < 2 ^ 32
    → begin < 2 ^ 32
    → size < 2 ^ 32
    → extract_three (incoming_message (word index ++ (word begin ++ (word size ++ []))) 12)
      ≡ done (index, begin, size)
unfolding extract_three message_of
extract_three-words index begin size hi hb hs =
    rw
      (
        extract_first index begin (word size ++ []) 12 hi hb,
        extract_second index begin (word size ++ []) 12 hi hb,
        extract_next_u32-word (second_cursor index begin (word size ++ []) 12 hi hb) size []
            (get_buffer-second index begin (word size ++ []) 12 hi hb) hs,
      )
      refl

-- The two reads of a message: its length, and then as many bytes, which the peer's code handles.
unfoldable pub receive : Platform → ℕ → List ℕ → Client → Outcome Client
receive platform p bytes c = do
  n ← read_as_be32 (take 4 bytes)
  handle_body platform p (take n (drop 4 bytes)) n c

take-word : (v : ℕ) (rest : List ℕ) → take 4 (word v ++ rest) ≡ word v ++ []
unfolding write_as_be32
take-word v rest = refl

pub receive-frame :
    (platform : Platform) (p n : ℕ) {bytes body : List ℕ} (tail : List ℕ) (c : Client)
    → n < 2 ^ 32
    → bytes ≡ word n ++ tail
    → take n tail ≡ body
    → receive platform p bytes c ≡ handle_body platform p body n c
unfolding receive
receive-frame platform p n tail c h e d =
    rw (e, take-word n tail, drop_one n tail, read_as_be32-write_as_be32 n [] h)
      (ap (λ t. handle_body platform p t n c) d)

on_request-words :
    (platform : Platform) (p : ℕ) (c : Client) (index begin size : ℕ)
    → index < 2 ^ 32
    → begin < 2 ^ 32
    → size < 2 ^ 32
    → test_state peer_interested (c.peers p) ≡ true
    → test_state am_choking (c.peers p) ≡ false
    → on_request platform p
        (incoming_message (word index ++ (word begin ++ (word size ++ []))) 12)
        c
      ≡ serve platform p (index, begin, size) c
unfolding on_request get_size
on_request-words platform p c index begin size hi hb hs asked unchoked =
    rw (asked, unchoked)
      (ap (λ m. m >>= (λ numbers. serve platform p numbers c))
        (extract_three-words index begin size hi hb hs))

take-request :
    (index begin size : ℕ)
    → take 13 (MessageId.request ∷ (word index ++ (word begin ++ word size)))
      ≡ MessageId.request ∷ (word index ++ (word begin ++ (word size ++ [])))
unfolding write_as_be32
take-request index begin size = refl

-- The bytes of sendRequest, at a peer that is interested and not choked, make it serve that block.
pub request_reaches_serve :
    (platform : Platform) (p : ℕ) (c : Client) (index begin size : ℕ)
    → index < 2 ^ 32
    → begin < 2 ^ 32
    → size < 2 ^ 32
    → test_state peer_interested (c.peers p) ≡ true
    → test_state am_choking (c.peers p) ≡ false
    → receive platform p (request_message MessageId.request index begin size).data_buffer c
      ≡ serve platform p (index, begin, size) c
unfolding handle_body size_minus_one handle_message
request_reaches_serve platform p c index begin size hi hb hs asked unchoked =
    receive-frame platform p 13 (MessageId.request ∷ (word index ++ (word begin ++ word size))) c
      (omega arith) (request_bytes MessageId.request index begin size)
      (take-request index begin size)
    ∙ on_request-words platform p c index begin size hi hb hs asked unchoked

have_bytes :
    (index : ℕ) → (have_message index).data_buffer ≡ word 5 ++ (MessageId.have ∷ word index)
unfolding have_message add_u32 add_u8 add_custom write_as_be32
have_bytes index = refl

take-have : (index : ℕ) → take 5 (MessageId.have ∷ word index) ≡ MessageId.have ∷ (word index ++ [])
unfolding write_as_be32
take-have index = refl

-- The bytes of sendHave enter the index in the peer's list.
pub have_reaches_add_index :
    (platform : Platform) (p : ℕ) (c : Client) (index : ℕ)
    → index < 2 ^ 32
    → receive platform p (have_message index).data_buffer c
      ≡ done (keep_reading p (modify_peer p (add_index index) c))
unfolding handle_body size_minus_one handle_message on_have get_size get_buffer
have_reaches_add_index platform p c index h =
    receive-frame platform p 5 (MessageId.have ∷ word index) c (omega arith) (have_bytes index)
      (take-have index)
    ∙ ap
        (λ m. m >>= (λ (x : ℕ × IncomingMessage).
          done (keep_reading p (modify_peer p (add_index x.0) c))))
        (extract_next_u32-word (incoming_message (word index ++ []) 4) index [] refl h)
