-- ===== src/Peer/Tiling.antt =====
-- The loops of requestPiece and cancelRequest, src/torrent/peer.cpp, against a list of the blocks of a piece.
pub mod Requests
use mathlib.Core.WellFounded.{Acc}
use ytorrent.Base.{
  ℕ, zero, suc, ◌+◌, ◌-◌, ◌*◌, ◌<◌, ◌≤◌, min, ◌≡◌, refl, ap, sym, ◌∙◌, List, [], ◌∷◌, dec_lt,
  dite-elim, arith, Outcome, done, thrown, undefined, ◌>>=◌,
}
use ytorrent.Base.Order.{lt_wf}
use ytorrent.Client.{Peer, max_block_request_size}
use ytorrent.Peer.Request.{chunk_loop, each_block, num_blocks, shrinks}

-- `n` blocks from the block `i` on, of a piece of `size` bytes: where each begins and how long it is.
unfoldable pub tiles : ℕ → ℕ → ℕ → List (ℕ × ℕ)
tiles i zero size = []
tiles i (suc n) size =
    (i * max_block_request_size, min max_block_request_size (size - i * max_block_request_size))
    ∷ tiles (suc i) n size

-- The blocks of a piece.
abbrev pub tiling : ℕ → List (ℕ × ℕ)
tiling size = tiles 0 (num_blocks size) size

unfoldable pub for_all : (ℕ → ℕ → Peer → Outcome Peer) → List (ℕ × ℕ) → Peer → Outcome Peer
for_all send [] x = done x
for_all send ((begin, size) ∷ rest) x = do y ← send begin size x; for_all send rest y

pub >>=-done : {A : Type 0} (m : Outcome A) → (m >>= done) ≡ m
>>=-done (done a) = refl
>>=-done (thrown e) = refl
>>=-done undefined = refl

>>=-cong :
    {A B : Type 0} (m : Outcome A) {f g : A → Outcome B}
    → ((a : A) → f a ≡ g a)
    → (m >>= f) ≡ (m >>= g)
>>=-cong (done a) h = h a
>>=-cong (thrown e) h = refl
>>=-cong undefined h = refl

num_blocks-more :
    (size : ℕ)
    → max_block_request_size < size
    → num_blocks size ≡ suc (num_blocks (size - max_block_request_size))
unfolding num_blocks
num_blocks-more size h = omega arith

num_blocks-last : (size : ℕ) → 0 < size → size ≤ max_block_request_size → num_blocks size ≡ 1
unfolding num_blocks
num_blocks-last size h k = omega arith

for_all-tiles_one :
    (send : ℕ → ℕ → Peer → Outcome Peer) (i size total : ℕ) (x : Peer)
    → total ≡ i * max_block_request_size + size
    → size ≤ max_block_request_size
    → for_all send (tiles i 1 total) x ≡ send (i * max_block_request_size) size x
unfolding for_all tiles
for_all-tiles_one send i size total x e h =
    >>=-done (
      send (i * max_block_request_size)
        (min max_block_request_size (total - i * max_block_request_size)) x)
    ∙ ap (λ n. send (i * max_block_request_size) n x)
        {x = min max_block_request_size (total - i * max_block_request_size)} {y = size}
        (omega arith)

for_all-tiles-suc :
    (send : ℕ → ℕ → Peer → Outcome Peer) (i n total : ℕ) (x : Peer)
    → i * max_block_request_size + max_block_request_size ≤ total
    → for_all send (tiles i (suc n) total) x ≡ (
        send (i * max_block_request_size) max_block_request_size x
        >>= for_all send (tiles (suc i) n total))
unfolding for_all tiles
for_all-tiles-suc send i n total x h =
    ap (λ k. send (i * max_block_request_size) k x >>= for_all send (tiles (suc i) n total))
      {x = min max_block_request_size (total - i * max_block_request_size)}
      {y = max_block_request_size} (omega arith)

chunk_loop-tiles :
    (send : ℕ → ℕ → Peer → Outcome Peer) (i begin size total : ℕ) (a : Acc ◌<◌ size) (x : Peer)
    → 0 < size
    → begin ≡ i * max_block_request_size
    → total ≡ begin + size
    → chunk_loop send begin size a x ≡ for_all send (tiles i (num_blocks size) total) x
unfolding chunk_loop dec_lt
chunk_loop-tiles send i begin size total (Acc.intro _ smaller) x h eb et =
    dite-elim (λ m. m ≡ for_all send (tiles i (num_blocks size) total) x)
      (dec_lt max_block_request_size size)
      (λ more.
        >>=-cong (send begin max_block_request_size x) (λ y.
          chunk_loop-tiles send (suc i) (begin + max_block_request_size)
            (size - max_block_request_size) total
            (smaller (size - max_block_request_size) (shrinks size more)) y (omega arith)
            (omega arith) (omega arith))
        ∙ ap
            (λ b.
              send b max_block_request_size x
              >>= for_all send (tiles (suc i) (num_blocks (size - max_block_request_size)) total))
            eb
        ∙ sym (
            for_all-tiles-suc send i (num_blocks (size - max_block_request_size)) total x
              (omega arith))
        ∙ ap (λ n. for_all send (tiles i n total) x) (sym (num_blocks-more size more)))
      (λ less.
        ap (λ b. send b size x) eb
        ∙ sym (for_all-tiles_one send i size total x (omega arith) (omega arith))
        ∙ ap (λ n. for_all send (tiles i n total) x) (sym (num_blocks-last size h (omega arith))))

-- The loop sends exactly the blocks of the piece, in order: block i begins at i * 16 KiB, and there are
-- as many as the queue has room for. A piece has a byte at least.
pub each_block-tiling :
    (send : ℕ → ℕ → Peer → Outcome Peer) (size : ℕ) (x : Peer)
    → 0 < size
    → each_block send size x ≡ for_all send (tiling size) x
unfolding each_block
each_block-tiling send size x h =
    chunk_loop-tiles send 0 0 size size (lt_wf.apply size) x h refl (omega arith)
