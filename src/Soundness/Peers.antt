-- ===== src/Soundness/Peers.antt =====
-- What a peer object writes leaves its queue alone, and what it queues is sound.
use ytorrent.Base.{
  ℕ, zero, suc, ◌*◌, ◌%◌, ◌^◌, ◌≤◌, ◌<◌, ◌≡◌, refl, sym, ◌∙◌, List, [], ◌∷◌, ◌++◌, ◌==◌,
  length-replicate, replicate, All, arith, Outcome, >>=-Ensures, Ensures, Ensures-then, if-elim,
  subst, ◌≢◌,
}
use ytorrent.Net.Outgoing.{OutgoingMessage}
use ytorrent.Net.Link.{write_message}
use ytorrent.Client.{
  Client, Torrent, Peer, QueuedPiece, Block, Platform, max_block_request_size, set_peer, run_peer,
  modify_peer, test_state, am_choking, peer_choking, PeerError,
}
use ytorrent.Torrent.Sizes.{piece_size}
use ytorrent.Torrent.Swarm.{handle_error, remove_peer, disconnect, disconnect_peer}
use ytorrent.Peer.Send.{
  write_out, send_interested, send_have, send_bitfield, send_piece_block, send_request, send_cancel,
}
use ytorrent.Peer.Request.{
  each_block, enqueue, request_piece, send_cancel_request, num_blocks, new_queued_piece,
  empty_block, send_piece_request,
}
use ytorrent.Peer.Request.Loop.{each_block_keeps}
use ytorrent.Soundness.{IsQueued, SoundPeer, Sound}

abbrev pub KeepsQueue : Peer → Peer → Type 0
KeepsQueue x y = y.piece_queue ≡ x.piece_queue

KeepsQueue-trans : (x y z : Peer) → KeepsQueue x y → KeepsQueue y z → KeepsQueue x z
KeepsQueue-trans x y z k l = l ∙ k

pub write_out-KeepsQueue :
    (out : OutgoingMessage) (x : Peer) → Ensures (KeepsQueue x) (write_out out x)
unfolding write_out
write_out-KeepsQueue out x = >>=-Ensures (KeepsQueue x) (write_message out x.conn) _ (λ k e. refl)

pub send_have-KeepsQueue : (i : ℕ) (x : Peer) → Ensures (KeepsQueue x) (send_have i x)
unfolding send_have
send_have-KeepsQueue i x =
    if-elim (Ensures (KeepsQueue x)) (test_state am_choking x) refl (write_out-KeepsQueue _ x)

pub send_bitfield-KeepsQueue :
    (bs : List ℕ) (x : Peer) → Ensures (KeepsQueue x) (send_bitfield bs x)
unfolding send_bitfield
send_bitfield-KeepsQueue bs x = write_out-KeepsQueue _ x

pub send_piece_block-KeepsQueue :
    (i b : ℕ) (block : List ℕ) (n : ℕ) (x : Peer)
    → Ensures (KeepsQueue x) (send_piece_block i b block n x)
unfolding send_piece_block
send_piece_block-KeepsQueue i b block n x = write_out-KeepsQueue _ x

send_request-KeepsQueue : (i b n : ℕ) (x : Peer) → Ensures (KeepsQueue x) (send_request i b n x)
unfolding send_request
send_request-KeepsQueue i b n x = write_out-KeepsQueue _ x

send_cancel-KeepsQueue : (i b n : ℕ) (x : Peer) → Ensures (KeepsQueue x) (send_cancel i b n x)
unfolding send_cancel
send_cancel-KeepsQueue i b n x = write_out-KeepsQueue _ x

pub piece_size-le : (t : Torrent) (i : ℕ) → Ensures (λ n. n ≤ t.piece_length) (piece_size t i)
unfolding piece_size
piece_size-le t i = ground (arith, mod-lt_of t.total_size t.piece_length)
  where
    mod-lt_of : (a b : ℕ) → b ≢ 0 → a % b < b
    mod-lt_of a b h = omega arith

module _ (platform : Platform) (spacing : ℕ) where
  pub SoundPeer-keeps : (x y : Peer) → KeepsQueue x y → SoundPeer spacing x → SoundPeer spacing y
  SoundPeer-keeps x y k h = subst (All (IsQueued spacing)) (sym k) h

  pub set_peer-Sound :
      (p : ℕ) (x : Peer) (c : Client)
      → SoundPeer spacing x
      → Sound platform spacing c
      → Sound platform spacing (set_peer p x c)
  set_peer-Sound p x c h v = (v.0, λ q. if-elim (SoundPeer spacing) (p == q) h (v.1 q))

  pub run_peer-Sound :
      (p : ℕ) (f : Peer → Outcome Peer) (c : Client)
      → Ensures (KeepsQueue (c.peers p)) (f (c.peers p))
      → Sound platform spacing c
      → Ensures (Sound platform spacing) (run_peer p f c)
  run_peer-Sound p f c k v =
      Ensures-then (KeepsQueue (c.peers p)) (Sound platform spacing) (f (c.peers p)) _ k
        λ x kx. set_peer-Sound p x c (SoundPeer-keeps (c.peers p) x kx (v.1 p)) v

  pub handle_error-Sound :
      (p : ℕ) (e : PeerError) (c : Client)
      → Sound platform spacing c
      → Sound platform spacing (handle_error p e c)
  unfolding handle_error remove_peer disconnect disconnect_peer
  handle_error-Sound p e c v = (v.0, λ q. if-elim (SoundPeer spacing) (p == q) (v.1 p) (v.1 q))

  pub disconnect-Sound :
      (p : ℕ) (c : Client) → Sound platform spacing c → Sound platform spacing (disconnect p c)
  unfolding disconnect disconnect_peer
  disconnect-Sound p c v = set_peer-Sound p _ c (v.1 p) v

  pub request_piece-Sound :
      (p i : ℕ) (c : Client)
      → Sound platform spacing c
      → Ensures (Sound platform spacing) (request_piece p i c)
  unfolding request_piece
  request_piece-Sound p i c v =
      if-elim (Ensures (Sound platform spacing)) (test_state peer_choking (c.peers p))
        (handle_error-Sound p _ c v)
        (>>=-Ensures (Sound platform spacing) (piece_size c.torrent i) _ λ size e.
          run_peer-Sound p (each_block (send_request i) size) c
            (each_block_keeps KeepsQueue KeepsQueue-trans (send_request i)
              (send_request-KeepsQueue i) size (c.peers p))
            v)

  pub send_cancel_request-KeepsQueue :
      (q : QueuedPiece) (t : Torrent) (x : Peer)
      → Ensures (KeepsQueue x) (send_cancel_request q t x)
  unfolding send_cancel_request
  send_cancel_request-KeepsQueue q t x =
      >>=-Ensures (KeepsQueue x) (piece_size t q.index) _ λ size e.
        each_block_keeps KeepsQueue KeepsQueue-trans (send_cancel q.index)
          (send_cancel-KeepsQueue q.index) size x

-- The blocks of a new entry fit a piece that is a whole number of blocks long.
num_blocks_fit :
    (size spacing : ℕ)
    → size ≤ spacing
    → spacing % max_block_request_size ≡ 0
    → num_blocks size * max_block_request_size ≤ spacing
unfolding num_blocks
num_blocks_fit size spacing h a = omega arith

All-replicate :
    (n : ℕ) → All (λ (b : Block). b.size ≤ max_block_request_size) (replicate n empty_block)
All-replicate zero = tt
All-replicate (suc n) = (omega arith, All-replicate n)

All-append {ℓ κ} :
    {A : Type ℓ} (P : A → Type κ) (xs ys : List A) → All P xs → All P ys → All P (xs ++ ys)
All-append P [] ys h k = k
All-append P (x ∷ xs) ys h k = (h.0, All-append P xs ys h.1 k)

new_queued_piece-IsQueued :
    (i size spacing : ℕ)
    → size ≤ spacing
    → spacing % max_block_request_size ≡ 0
    → IsQueued spacing (new_queued_piece i size)
unfolding new_queued_piece
new_queued_piece-IsQueued i size spacing h a = (
  rw (length-replicate (num_blocks size) empty_block) (num_blocks_fit size spacing h a),
  All-replicate (num_blocks size),
)

module _ (platform : Platform) (spacing : ℕ) (aligned : spacing % max_block_request_size ≡ 0) where
  pub send_piece_request-Sound :
      (p i : ℕ) (c : Client)
      → Sound platform spacing c
      → Ensures (Sound platform spacing) (send_piece_request p i c)
  unfolding send_piece_request send_interested
  send_piece_request-Sound p i c v =
      Ensures-then (λ n. n ≤ c.torrent.piece_length) (Sound platform spacing)
        (piece_size c.torrent (i % 2 ^ 32)) _ (piece_size-le c.torrent (i % 2 ^ 32))
        λ size le.
          let c' = modify_peer p send_interested c in
          let v' : Sound platform spacing c' = set_peer-Sound platform spacing p _ c (v.1 p) v in
          let q = new_queued_piece (i % 2 ^ 32) (size % 2 ^ 32) in
          let d = modify_peer p (enqueue q) c' in
          let queued : IsQueued spacing q =
            new_queued_piece-IsQueued (i % 2 ^ 32) (size % 2 ^ 32) spacing
              (omega (arith, v.0.spaced)) aligned in
          let w : Sound platform spacing d =
            set_peer-Sound platform spacing p _ c'
              (All-append (IsQueued spacing) (c'.peers p).piece_queue (q ∷ []) (v'.1 p)
                (queued, tt))
              v' in
          if-elim (Ensures (Sound platform spacing)) (test_state peer_choking (d.peers p)) w
            (request_piece-Sound platform spacing p (i % 2 ^ 32) d w)
