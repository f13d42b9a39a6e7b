-- ===== src/Peer/Request/Loop.antt =====
-- The loop over the blocks of a piece, src/torrent/peer.cpp, keeps what each of its calls keeps.
use mathlib.Core.WellFounded.{Acc}
use mathlib.Core.Logic.{dif_pos, dif_neg}
use native.Mathlib.Bridge.{le_prop}
use ytorrent.Base.{ℕ, ◌+◌, ◌-◌, ◌<◌, Outcome, Ensures, Ensures-map, Ensures-then, dec_lt}
use ytorrent.Base.Order.{lt_wf}
use ytorrent.Client.{Peer, max_block_request_size}
use ytorrent.Peer.Request.{chunk_loop, each_block, shrinks}

module _ (R : Peer → Peer → Type 0) (compose : (x y z : Peer) → R x y → R y z → R x z)
    (send : ℕ → ℕ → Peer → Outcome Peer)
    (keeps : (b n : ℕ) (x : Peer) → Ensures (R x) (send b n x)) where
  chunk_loop_keeps :
      (begin size : ℕ) (w : Acc ◌<◌ size) (x : Peer)
      → Ensures (R x) (chunk_loop send begin size w x)
  unfolding chunk_loop
  chunk_loop_keeps begin size (Acc.intro _ smaller) x = elim (dec_lt max_block_request_size size) [
    | yes more ↦ rw (dif_pos _ le_prop more) (
        Ensures-then (R x) (R x) (send begin max_block_request_size x) _
          (keeps begin max_block_request_size x)
          λ y k.
            Ensures-map (R y) (R x) _ (λ z l. compose x y z k l)
              (chunk_loop_keeps (begin + max_block_request_size) (size - max_block_request_size)
                (smaller (size - max_block_request_size) (shrinks size more)) y))
    | no last ↦ rw (dif_neg _ last) (keeps begin size x)
  ]

  -- A relation that composes, and that each call of `send` is in.
  pub each_block_keeps : (size : ℕ) (x : Peer) → Ensures (R x) (each_block send size x)
  unfolding each_block
  each_block_keeps size x = chunk_loop_keeps 0 size (lt_wf.apply size) x
