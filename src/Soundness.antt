-- ===== src/Soundness.antt =====
-- The invariant of the client: the books of the torrent agree with one another and with the file, and no
-- queued piece can grow past its place in the file.
pub mod Lookup
pub mod Store
pub mod Acceptance
pub mod Peers
pub mod Choice
pub mod Serving
pub mod Completion
pub mod Handlers
pub mod Run
pub mod Start
use ytorrent.Base.{
  ℕ, zero, suc, ◌+◌, ◌*◌, ◌^◌, ◌≤◌, ◌<◌, ◌≡◌, List, [], ◌∷◌, Option, some, none, Bool, true, false,
  if◌then◌else◌, length, map, get_elem?, All,
}
use ytorrent.Client.{
  Client, Torrent, Piece, Peer, Block, QueuedPiece, Stream, Platform, max_block_request_size,
}
use ytorrent.Torrent.Sizes.{digest_bytes}

abbrev pub file_bytes : Option Stream → List ℕ
file_bytes none = []
file_bytes (some s) = s.contents

abbrev pub count_finished : List Piece → ℕ
count_finished [] = 0
count_finished (p ∷ ps) = (if p.finished then 1 else 0) + count_finished ps

-- At the place of piece `i` the file holds bytes with the hash `hash`, no more than a piece has.
abbrev pub HoldsPiece : Platform → ℕ → List ℕ → ℕ → List ℕ → Type 0
HoldsPiece platform spacing file i hash =
    (bytes : List ℕ) × (digest_bytes (platform.sha1 bytes) ≡ hash)
    × (length bytes ≤ spacing)
    × ((k : ℕ) → k < length bytes → get_elem? file (i * spacing + k) ≡ get_elem? bytes k)

abbrev pub Stored : Platform → ℕ → List ℕ → List Piece → Type 0
Stored platform spacing file pieces =
    (i : ℕ) (q : Piece)
    → get_elem? pieces i ≡ some q
    → q.finished ≡ true
    → HoldsPiece platform spacing file i q.hash

-- The books, over the fields of the torrent that they speak of.
pub record Books (platform : Platform) (spacing piece_length completed : ℕ) (pieces : List Piece)
    (bitfield : List Bool) (begin : ℕ) (file : List ℕ) : Type 0 where
  pub spaced : piece_length ≡ spacing
  pub counted : completed ≡ count_finished pieces
  pub mirrored : bitfield ≡ map (λ q. q.finished) pieces
  pub from_start : begin ≡ 0
  pub addressable : length pieces * spacing < 2 ^ 63
  pub countable : length pieces < 2 ^ 64
  pub stored : Stored platform spacing file pieces

abbrev pub SoundTorrent : Platform → ℕ → Torrent → Type 0
SoundTorrent platform spacing t =
    Books platform spacing t.piece_length t.completed_pieces t.pieces t.bitfield t.file.begin
      (file_bytes t.file.fp)

-- The blocks of a queued piece are no longer than a request may ask for, and fit the piece together.
abbrev pub IsQueued : ℕ → QueuedPiece → Type 0
IsQueued spacing q =
    (length q.blocks * max_block_request_size ≤ spacing)
    × All (λ b. b.size ≤ max_block_request_size) q.blocks

abbrev pub SoundPeer : ℕ → Peer → Type 0
SoundPeer spacing x = All (IsQueued spacing) x.piece_queue

abbrev pub Sound : Platform → ℕ → Client → Type 0
Sound platform spacing c =
    SoundTorrent platform spacing c.torrent × ((p : ℕ) → SoundPeer spacing (c.peers p))
