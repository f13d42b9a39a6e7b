-- ===== src/Peer/Send.antt =====
-- src/torrent/peer.cpp: the messages that a peer object writes. A uint32_t parameter takes its argument
-- modulo 2 ^ 32.
use ytorrent.Base.{ℕ, ◌+◌, ◌%◌, ◌^◌, List, [], ◌∷◌, if◌then◌else◌, length, Outcome, done, ◌>>=◌}
use ytorrent.Net.Outgoing.{OutgoingMessage, outgoing_message, add_custom, add_u8, add_u32}
use ytorrent.Net.Link.{write, write_message}
use ytorrent.Peer.MessageId
use ytorrent.Client.{Peer, on_conn, set_state, test_state, am_choking, am_interested}

-- `conn->write(out)`.
unfoldable pub write_out : OutgoingMessage → Peer → Outcome Peer
write_out out x = do k ← write_message out x.conn; done (record x { conn = k })

unfoldable pub send_interested : Peer → Peer
send_interested x =
    set_state am_interested (on_conn (write (0 ∷ 0 ∷ 0 ∷ 1 ∷ MessageId.interested ∷ []) 5) x)

unfoldable pub have_message : ℕ → OutgoingMessage
unfolding add_u8 add_u32
have_message index = add_u32 index (add_u8 MessageId.have (add_u32 5 (outgoing_message 9)))

unfoldable pub send_have : ℕ → Peer → Outcome Peer
send_have index x =
    if test_state am_choking x then done x else write_out (have_message (index % 2 ^ 32)) x

unfoldable pub bitfield_message : List ℕ → OutgoingMessage
unfolding add_u8 add_u32 add_custom
bitfield_message r_bitfield = add_custom r_bitfield (length r_bitfield) (
    add_u8 MessageId.bitfield
      (add_u32 ((1 + length r_bitfield) % 2 ^ 32) (outgoing_message (5 + length r_bitfield))))

unfoldable pub send_bitfield : List ℕ → Peer → Outcome Peer
send_bitfield r_bitfield x = write_out (bitfield_message r_bitfield) x

unfoldable pub piece_block_message : ℕ → ℕ → List ℕ → ℕ → OutgoingMessage
unfolding add_u8 add_u32 add_custom
piece_block_message index begin block size = add_custom block size (
    add_u32 begin (
      add_u32 index (
        add_u8 MessageId.piece_block
          (add_u32 ((9 + size) % 2 ^ 32) (outgoing_message (13 + size))))))

unfoldable pub send_piece_block : ℕ → ℕ → List ℕ → ℕ → Peer → Outcome Peer
send_piece_block index begin block size x = write_out (piece_block_message index begin block size) x

-- The message of sendRequest and of sendCancel.
unfoldable pub request_message : ℕ → ℕ → ℕ → ℕ → OutgoingMessage
unfolding add_u8 add_u32
request_message id index begin size =
    add_u32 size (add_u32 begin (add_u32 index (add_u8 id (add_u32 13 (outgoing_message 17)))))

unfoldable pub send_request : ℕ → ℕ → ℕ → Peer → Outcome Peer
send_request index begin size x =
    write_out (request_message MessageId.request (index % 2 ^ 32) (begin % 2 ^ 32) (size % 2 ^ 32))
      x

unfoldable pub send_cancel : ℕ → ℕ → ℕ → Peer → Outcome Peer
send_cancel index begin size x =
    write_out (request_message MessageId.cancel (index % 2 ^ 32) (begin % 2 ^ 32) (size % 2 ^ 32)) x
