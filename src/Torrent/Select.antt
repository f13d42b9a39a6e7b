-- ===== src/Torrent/Select.antt =====
-- src/torrent/torrent.cpp: which piece a peer is asked for.
pub mod Rarest
use Prim.Native.Nat.{zero, suc}
use ytorrent.Base.{ℕ, ◌+◌, List, [], ◌∷◌, not, ◌||◌, ◌==◌, ltb, if◌then◌else◌, Outcome, done}
use ytorrent.Client.{Client, Piece, Torrent, int32_max, has_piece, on_torrent}
use ytorrent.Peer.Request.{send_piece_request}

-- How the loop ends: at a piece that nobody was asked for, or with the last values of `index` and
-- `priority`.
pub data Selection : Type 0 where
  unrequested : ℕ → Selection
  least : ℕ → ℕ → Selection

unfoldable pub select_loop : List ℕ → List Piece → ℕ → ℕ → ℕ → Selection
select_loop has [] i index priority = least index priority
select_loop has (p ∷ ps) i index priority =
    let skip = select_loop has ps (suc i) index priority in
    let lower = select_loop has ps (suc i) i p.priority in
    if p.finished || not (has_piece has i)
    then skip
    else if p.priority == 0
    then unrequested i
    else if ltb p.priority priority
    then lower
    else skip

unfoldable pub modify_piece : ℕ → (Piece → Piece) → List Piece → List Piece
modify_piece i f [] = []
modify_piece zero f (p ∷ ps) = f p ∷ ps
modify_piece (suc i) f (p ∷ ps) = p ∷ modify_piece i f ps

abbrev pub on_piece : ℕ → (Piece → Piece) → Torrent → Torrent
on_piece i f t = record t { pieces = modify_piece i f t.pieces }

-- The piece to ask for, and the torrent with its priority changed.
unfoldable pub act_on : ℕ → Selection → Client → Outcome Client
act_on p (unrequested i) c =
    send_piece_request p i (on_torrent (on_piece i (λ q. record q { priority = 1 })) c)
act_on p (least index priority) c =
    if priority == int32_max
    then done c
    else send_piece_request p index
        (on_torrent (on_piece index (λ q. record q { priority = q.priority + 1 })) c)

unfoldable pub select_piece_and_request : ℕ → Client → Outcome Client
select_piece_and_request p c =
    act_on p (select_loop (c.peers p).has_piece_indexes c.torrent.pieces 0 0 int32_max) c
