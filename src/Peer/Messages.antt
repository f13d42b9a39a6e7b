-- ===== src/Peer/Messages.antt =====
-- src/torrent/peer.cpp: the cases of Peer::handleMessage but PIECE_BLOCK. A `break` there goes on to
-- `keep_reading`; a `return` does not.
pub mod Guards
use Prim.Native.Nat.{zero, suc}
use ytorrent.Base.{
  ℕ, ◌+◌, ◌-◌, ◌*◌, ◌^◌, bit_and, List, [], ◌∷◌, ◌++◌, not, ◌==◌, ltb, if◌then◌else◌, length,
  Outcome, done, undefined, ◌>>=◌,
}
use ytorrent.Net.Link.{read, write, message_length}
use ytorrent.Net.Incoming.{IncomingMessage, get_size, get_buffer, extract_next_u32}
use ytorrent.Client.{
  Client, Peer, QueuedPiece, Platform, modify_peer, on_conn, set_state, reset_state, test_state,
  am_choking, peer_choking, peer_interested, has_piece, max_block_request_size, bad_choke,
  bad_unchoke, bad_interested, bad_not_interested, bad_have, bad_bitfield, bad_request,
  request_without_interest, request_while_choked, request_too_large, bad_cancel,
}
use ytorrent.Torrent.Sizes.{piece_done, is_fully_downloaded}
use ytorrent.Torrent.Swarm.{handle_error}
use ytorrent.Torrent.Select.{select_piece_and_request}
use ytorrent.Torrent.Serve.{handle_block_request}
use ytorrent.Peer.Request.{request_piece}
use ytorrent.Peer.MessageId

-- `conn->read(4, handle)`.
unfoldable pub keep_reading : ℕ → Client → Client
keep_reading p c = modify_peer p (on_conn (read 4 message_length)) c

unfoldable pub on_choke : ℕ → IncomingMessage → Client → Outcome Client
on_choke p in_msg c =
    if not (get_size in_msg == 0)
    then done (handle_error p bad_choke c)
    else done (keep_reading p (modify_peer p (set_state peer_choking) c))

-- `requestPiece` for each piece of the queue.
unfoldable pub request_all : ℕ → List QueuedPiece → Client → Outcome Client
request_all p [] c = done c
request_all p (q ∷ qs) c = do d ← request_piece p q.index c; request_all p qs d

unfoldable pub on_unchoke : ℕ → IncomingMessage → Client → Outcome Client
on_unchoke p in_msg c =
    if not (get_size in_msg == 0) then done (handle_error p bad_unchoke c) else (do
      d ← request_all p (c.peers p).piece_queue (modify_peer p (reset_state peer_choking) c)
      done (keep_reading p d))

-- A peer that shows interest is unchoked at once.
unfoldable pub answer_interest : Peer → Peer
unfolding write
answer_interest x =
    if test_state am_choking x
    then reset_state am_choking (on_conn (write (0 ∷ 0 ∷ 0 ∷ 1 ∷ MessageId.unchoke ∷ []) 5) x)
    else x

unfoldable pub on_interested : ℕ → IncomingMessage → Client → Outcome Client
on_interested p in_msg c =
    if not (get_size in_msg == 0)
    then done (handle_error p bad_interested c)
    else done
        (keep_reading p (modify_peer p (λ x. answer_interest (set_state peer_interested x)) c))

unfoldable pub on_not_interested : ℕ → IncomingMessage → Client → Outcome Client
on_not_interested p in_msg c =
    if not (get_size in_msg == 0)
    then done (handle_error p bad_not_interested c)
    else done (keep_reading p (modify_peer p (reset_state peer_interested) c))

unfoldable pub add_index : ℕ → Peer → Peer
unfolding has_piece
add_index i x =
    if has_piece x.has_piece_indexes i
    then x
    else record x { has_piece_indexes = x.has_piece_indexes ++ i ∷ [] }

unfoldable pub on_have : ℕ → IncomingMessage → Client → Outcome Client
on_have p in_msg c = if not (get_size in_msg == 4) then done (handle_error p bad_have c) else (do
  (i, _) ← extract_next_u32 in_msg
  done (keep_reading p (modify_peer p (add_index i) c)))

-- The `n` lowest bits of a byte from `j` on, counted from the highest: the pieces that they stand for.
unfoldable pub add_bits : ℕ → ℕ → ℕ → ℕ → ℕ → List ℕ → List ℕ
add_bits zero j b i total has = has
add_bits (suc n) j b i total has =
    let index = i * 8 + j in
    add_bits n (suc j) b i total (
      if bit_and b (2 ^ (7 - j)) == 0
      then has
      else if ltb index total
      then has ++ index ∷ []
      else has)

-- `raw[i]` for the `n` bytes from `i` on.
unfoldable pub add_bytes : ℕ → ℕ → List ℕ → ℕ → List ℕ → Outcome (List ℕ)
add_bytes zero i raw total has = done has
add_bytes (suc n) i [] total has = undefined
add_bytes (suc n) i (b ∷ raw) total has = add_bytes n (suc i) raw total (add_bits 8 0 b i total has)

unfoldable pub select_unless_complete : ℕ → Client → Outcome Client
select_unless_complete p c =
    if not (is_fully_downloaded c.torrent) then select_piece_and_request p c else done c

unfoldable pub on_bitfield : ℕ → IncomingMessage → Client → Outcome Client
on_bitfield p in_msg c =
    if ltb (get_size in_msg) 1 then done (handle_error p bad_bitfield c) else (do
      has ←
          add_bytes (get_size in_msg) 0 (get_buffer in_msg) (length c.torrent.pieces)
            (c.peers p).has_piece_indexes
      d ← select_unless_complete p (modify_peer p (λ x. record x { has_piece_indexes = has }) c)
      done (keep_reading p d))

-- The three numbers of a request or of a cancel message.
unfoldable pub extract_three : IncomingMessage → Outcome (ℕ × ℕ × ℕ)
extract_three in_msg = do
  (index, in1) ← extract_next_u32 in_msg
  (begin, in2) ← extract_next_u32 in1
  (size, _) ← extract_next_u32 in2
  done (index, begin, size)

unfoldable pub serve : Platform → ℕ → ℕ × ℕ × ℕ → Client → Outcome Client
serve platform p (index, begin, size) c =
    if ltb max_block_request_size size
    then done (handle_error p (request_too_large size) c)
    else (do
      have_it ← piece_done c.torrent index
      d ← (if have_it then handle_block_request platform p index begin size c else done c)
      done (keep_reading p d))

unfoldable pub on_request : Platform → ℕ → IncomingMessage → Client → Outcome Client
on_request platform p in_msg c =
    if not (get_size in_msg == 12)
    then done (handle_error p bad_request c)
    else if not (test_state peer_interested (c.peers p))
    then done (handle_error p request_without_interest c)
    else if test_state am_choking (c.peers p)
    then done (handle_error p request_while_choked c)
    else (do numbers ← extract_three in_msg; serve platform p numbers c)

unfoldable pub on_cancel : ℕ → IncomingMessage → Client → Outcome Client
on_cancel p in_msg c =
    if not (get_size in_msg == 12)
    then done (handle_error p bad_cancel c)
    else (do _ ← extract_three in_msg; done (keep_reading p c))
