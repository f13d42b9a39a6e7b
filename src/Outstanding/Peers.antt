-- ===== src/Outstanding/Peers.antt =====
-- What a peer object writes asks for nothing to be read.
use ytorrent.Base.{
  ℕ, ◌≤◌, ◌≡◌, refl, sym, ap, subst, ◌∙◌, List, [], ◌∷◌, ◌==◌, length-append, arith, Outcome,
  Ensures, Ensures-then, >>=-Ensures, if-elim, if-cases, same_of_test,
}
use ytorrent.Net.Outgoing.{OutgoingMessage, bytes_of, size_of}
use ytorrent.Net.Link.{
  Connection, ReadCallback, is_connected, read, write, write_message, close, set_error_callback,
}
use ytorrent.Client.{
  Client, Peer, QueuedPiece, Torrent, PeerError, set_peer, run_peer, test_state, am_choking,
  has_piece,
}
use ytorrent.Torrent.Sizes.{piece_size}
use ytorrent.Torrent.Swarm.{disconnect_peer, disconnect, remove_peer, handle_error}
use ytorrent.Peer.MessageId
use ytorrent.Peer.Send.{
  write_out, send_interested, send_have, send_bitfield, send_piece_block, send_request, send_cancel,
}
use ytorrent.Peer.Request.{each_block, send_cancel_request}
use ytorrent.Peer.Request.Loop.{each_block_keeps}
use ytorrent.Peer.Messages.{answer_interest, add_index}
use ytorrent.Outstanding.{pending, Calm, Idle}

-- The peer waits for as much as before.
abbrev pub Quiet : Peer → Peer → Type 0
Quiet x y = pending y.conn ≡ pending x.conn

Quiet-trans : (x y z : Peer) → Quiet x y → Quiet y z → Quiet x z
Quiet-trans x y z k l = l ∙ k

pub write-pending :
    (bytes : List ℕ) (size : ℕ) (k : Connection) → pending (write bytes size k) ≡ pending k
unfolding write
write-pending bytes size k =
    if-elim (λ (l : Connection). pending l ≡ pending k) (is_connected k) refl refl

pub close-pending : (k : Connection) → pending (close k) ≡ pending k
unfolding close
close-pending k = if-elim (λ (l : Connection). pending l ≡ pending k) (is_connected k) refl refl

write_out-Quiet : (out : OutgoingMessage) (x : Peer) → Ensures (Quiet x) (write_out out x)
unfolding write_out write_message
write_out-Quiet out x =
    Ensures-then (λ k. pending k ≡ pending x.conn) (Quiet x) (write_message out x.conn) _
      (>>=-Ensures (λ k. pending k ≡ pending x.conn) (bytes_of out) _
        λ bytes _. write-pending bytes (size_of out) x.conn)
      (λ k e. e)

pub send_interested-Quiet : (x : Peer) → Quiet x (send_interested x)
unfolding send_interested
send_interested-Quiet x = write-pending _ _ x.conn

pub send_have-Quiet : (i : ℕ) (x : Peer) → Ensures (Quiet x) (send_have i x)
unfolding send_have
send_have-Quiet i x =
    if-elim (Ensures (Quiet x)) (test_state am_choking x) refl (write_out-Quiet _ x)

pub send_bitfield-Quiet : (bs : List ℕ) (x : Peer) → Ensures (Quiet x) (send_bitfield bs x)
unfolding send_bitfield
send_bitfield-Quiet bs x = write_out-Quiet _ x

pub send_piece_block-Quiet :
    (i b : ℕ) (block : List ℕ) (n : ℕ) (x : Peer)
    → Ensures (Quiet x) (send_piece_block i b block n x)
unfolding send_piece_block
send_piece_block-Quiet i b block n x = write_out-Quiet _ x

send_request-Quiet : (i b n : ℕ) (x : Peer) → Ensures (Quiet x) (send_request i b n x)
unfolding send_request
send_request-Quiet i b n x = write_out-Quiet _ x

send_cancel-Quiet : (i b n : ℕ) (x : Peer) → Ensures (Quiet x) (send_cancel i b n x)
unfolding send_cancel
send_cancel-Quiet i b n x = write_out-Quiet _ x

pub request_blocks-Quiet :
    (i size : ℕ) (x : Peer) → Ensures (Quiet x) (each_block (send_request i) size x)
request_blocks-Quiet i size x =
    each_block_keeps Quiet Quiet-trans (send_request i) (send_request-Quiet i) size x

pub send_cancel_request-Quiet :
    (q : QueuedPiece) (t : Torrent) (x : Peer) → Ensures (Quiet x) (send_cancel_request q t x)
unfolding send_cancel_request
send_cancel_request-Quiet q t x = >>=-Ensures (Quiet x) (piece_size t q.index) _ λ size e.
    each_block_keeps Quiet Quiet-trans (send_cancel q.index) (send_cancel-Quiet q.index) size x

pub answer_interest-Quiet : (x : Peer) → Quiet x (answer_interest x)
unfolding answer_interest
answer_interest-Quiet x =
    if-elim (Quiet x) (test_state am_choking x)
      (write-pending (0 ∷ 0 ∷ 0 ∷ 1 ∷ MessageId.unchoke ∷ []) 5 x.conn) refl

pub add_index-Quiet : (i : ℕ) (x : Peer) → Quiet x (add_index i x)
unfolding add_index
add_index-Quiet i x = if-elim (Quiet x) (has_piece x.has_piece_indexes i) refl refl

pub disconnect_peer-Quiet : (x : Peer) → Quiet x (disconnect_peer x)
unfolding disconnect_peer set_error_callback
disconnect_peer-Quiet x = close-pending x.conn

-- A change of one peer, quiet or bounded.
pub set_peer-Calm :
    (p : ℕ) (x : Peer) (c : Client) → pending x.conn ≤ 1 → Calm c → Calm (set_peer p x c)
set_peer-Calm p x c h v q = if-elim (λ (y : Peer). pending y.conn ≤ 1) (p == q) h (v q)

pub set_peer-Idle :
    (p q : ℕ) (x : Peer) (c : Client) → Quiet (c.peers q) x → Idle p c → Idle p (set_peer q x c)
set_peer-Idle p q x c k v = (
  set_peer-Calm q x c (subst (λ n. n ≤ 1) (sym k) (v.0 q)) v.0,
  if-cases (λ (y : Peer). pending y.conn ≡ 0) (q == p)
      (λ e. k ∙ ap (λ n. pending (c.peers n).conn) (same_of_test q p e) ∙ v.1) (λ _. v.1),
)

pub run_peer-Idle :
    (p q : ℕ) (f : Peer → Outcome Peer) (c : Client)
    → Ensures (Quiet (c.peers q)) (f (c.peers q))
    → Idle p c
    → Ensures (Idle p) (run_peer q f c)
run_peer-Idle p q f c k v =
    Ensures-then (Quiet (c.peers q)) (Idle p) (f (c.peers q)) _ k λ x kx. set_peer-Idle p q x c kx v

pub handle_error-Idle :
    (p q : ℕ) (e : PeerError) (c : Client) → Idle p c → Idle p (handle_error q e c)
unfolding handle_error remove_peer disconnect
handle_error-Idle p q e c v =
    set_peer-Idle p q (disconnect_peer (c.peers q)) c (disconnect_peer-Quiet (c.peers q)) v

-- A read that an idle connection asks for is the only one.
pub read-one :
    (n : ℕ) (cb : ReadCallback) (k : Connection) → pending k ≡ 0 → pending (read n cb k) ≤ 1
unfolding read
read-one n cb k e =
    if-elim (λ (l : Connection). pending l ≤ 1) (is_connected k)
      (omega (arith, length-append k.reads (n ∷ []))) (omega arith)
