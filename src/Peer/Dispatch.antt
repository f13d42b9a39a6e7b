-- ===== src/Peer/Dispatch.antt =====
-- src/torrent/peer.cpp: Peer::handle and Peer::handleMessage.
use ytorrent.Base.{
  ℕ, zero, suc, ◌-◌, ◌^◌, List, [], ◌∷◌, not, ◌==◌, if◌then◌else◌, Outcome, done, undefined, ◌>>=◌,
}
use ytorrent.Utils.Transcoder.{read_as_be32}
use ytorrent.Net.Link.{read, message_body}
use ytorrent.Net.Incoming.{IncomingMessage, incoming_message}
use ytorrent.Client.{Client, Platform, modify_peer, on_conn, bad_length_prefix}
use ytorrent.Torrent.Swarm.{handle_error}
use ytorrent.Peer.Messages.{
  keep_reading, on_choke, on_unchoke, on_interested, on_not_interested, on_have, on_bitfield,
  on_request, on_cancel,
}
use ytorrent.Peer.Blocks.{on_piece_block}
use ytorrent.Peer.MessageId

-- A message of an unknown type is passed over.
unfoldable pub handle_message : Platform → ℕ → ℕ → IncomingMessage → Client → Outcome Client
handle_message platform p id in_msg c =
    if id == MessageId.choke
    then on_choke p in_msg c
    else if id == MessageId.unchoke
    then on_unchoke p in_msg c
    else if id == MessageId.interested
    then on_interested p in_msg c
    else if id == MessageId.not_interested
    then on_not_interested p in_msg c
    else if id == MessageId.have
    then on_have p in_msg c
    else if id == MessageId.bitfield
    then on_bitfield p in_msg c
    else if id == MessageId.request
    then on_request platform p in_msg c
    else if id == MessageId.piece_block
    then on_piece_block platform p in_msg c
    else if id == MessageId.cancel
    then on_cancel p in_msg c
    else done (keep_reading p c)

-- `size - 1` of a size_t.
unfoldable pub size_minus_one : ℕ → ℕ
size_minus_one zero = 2 ^ 64 - 1
size_minus_one (suc n) = n

-- The callback of the read of a message body: `data[0]` is the type, the rest the contents.
unfoldable pub handle_body : Platform → ℕ → List ℕ → ℕ → Client → Outcome Client
handle_body platform p [] size c = undefined
handle_body platform p (id ∷ bytes) size c =
    handle_message platform p id (incoming_message bytes (size_minus_one size)) c

-- Peer::handle, the callback of the read of a length.
unfoldable pub handle : ℕ → List ℕ → ℕ → Client → Outcome Client
handle p bytes size c = if not (size == 4) then done (handle_error p bad_length_prefix c) else (do
  n ← read_as_be32 bytes
  (if n == 0
      then done (keep_reading p c)
      else done (modify_peer p (on_conn (read n message_body)) c)))
