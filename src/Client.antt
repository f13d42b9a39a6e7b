-- ===== src/Client.antt =====
-- The state of the running client: src/torrent/torrent.hpp and peer.hpp. A shared_ptr to a peer is the
-- peer's number in the store `peers`. Each size_t counter wraps at 2 ^ 64.
use ytorrent.Base.{
  ℕ, ◌-◌, ◌^◌, List, [], ◌∷◌, Option, Bool, true, false, ◌||◌, ◌==◌, if◌then◌else◌, Outcome, done,
  ◌>>=◌,
}
use ytorrent.Net.Link.{Connection}

-- MAX_BLOCK_REQUEST_SIZE: 16 KiB.
abbrev pub max_block_request_size : ℕ
max_block_request_size = 16384

-- std::numeric_limits<int32_t>::max().
abbrev pub int32_max : ℕ
int32_max = 2 ^ 31 - 1

-- enum Peer::State, the positions in the bit set `state`.
pub data State : Type 0 where
  am_choking am_interested peer_choking peer_interested : State

pub record StateBits : Type 0 where
  pub am_choking_bit : Bool
  pub am_interested_bit : Bool
  pub peer_choking_bit : Bool
  pub peer_interested_bit : Bool

abbrev pub assign : State → Bool → StateBits → StateBits
assign am_choking b s = record s { am_choking_bit = b }
assign am_interested b s = record s { am_interested_bit = b }
assign peer_choking b s = record s { peer_choking_bit = b }
assign peer_interested b s = record s { peer_interested_bit = b }

abbrev pub test : State → StateBits → Bool
test am_choking s = s.am_choking_bit
test am_interested s = s.am_interested_bit
test peer_choking s = s.peer_choking_bit
test peer_interested s = s.peer_interested_bit

-- Peer::Block. A null `contents` is `none`.
pub record Block : Type 0 where
  pub size : ℕ
  pub contents : Option (List ℕ)

-- Peer::Piece: a piece that is being fetched.
pub record QueuedPiece : Type 0 where
  pub index : ℕ
  pub have_blocks : ℕ
  pub total_blocks : ℕ
  pub blocks : List Block

pub record Peer : Type 0 where
  pub has_piece_indexes : List ℕ
  pub piece_queue : List QueuedPiece
  pub peer_id : List ℕ
  pub conn : Connection
  pub state : StateBits

-- Torrent::Piece. `priority` counts the requests for the piece and is an int32_t that is never negative.
pub record Piece : Type 0 where
  pub finished : Bool
  pub priority : ℕ
  pub hash : List ℕ

-- A FILE*: the contents of the file, and the greatest size that the file system lets it reach.
pub record Stream : Type 0 where
  pub contents : List ℕ
  pub position : ℕ
  pub room : ℕ

-- Torrent::File.
pub record File : Type 0 where
  pub fp : Option Stream
  pub begin : ℕ
  pub length : ℕ

pub record Torrent : Type 0 where
  pub active_peers : List ℕ
  pub black_listed : List ℕ
  pub pieces : List Piece
  pub file : File
  pub bitfield : List Bool
  pub completed_pieces : ℕ
  pub uploaded_bytes : ℕ
  pub downloaded_bytes : ℕ
  pub wasted_bytes : ℕ
  pub piece_hash_misses : ℕ
  pub piece_length : ℕ
  pub total_size : ℕ
  pub handshake : List ℕ
  pub own_id : List ℕ
  pub name : List ℕ
  pub main_tracker_url : List ℕ
  pub download_dir : List ℕ

-- The messages that Peer::handleError is called with, and Connection::handleError's.
pub data PeerError : Type 0 where
  handshake_mismatch bad_length_prefix bad_choke bad_unchoke bad_interested bad_not_interested
        bad_have bad_bitfield bad_request request_without_interest request_while_choked :
      PeerError
  request_too_large : ℕ → PeerError
  bad_piece_block : PeerError
  block_too_large : ℕ → PeerError
  piece_not_asked_for : ℕ → PeerError
  block_index_too_large bad_cancel remotely_choked network_error : PeerError

-- `disk` is what fopen(name, "rb") opens, `log` the lines that removePeer writes, oldest first.
pub record Client : Type 0 where
  pub torrent : Torrent
  pub peers : ℕ → Peer
  pub allocated : ℕ
  pub disk : Option Stream
  pub log : List PeerError

-- Boost and the C++ memory, which are no part of the program: the words of a SHA-1 digest, the blocks
-- of a dynamic_bitset, and what a new array of a given size holds.
pub record Platform : Type 0 where
  pub sha1 : List ℕ → List ℕ
  pub to_block_range : List Bool → List ℕ
  pub new_array : ℕ → List ℕ

abbrev pub set_peer : ℕ → Peer → Client → Client
set_peer p x c = record c { peers = λ q. if p == q then x else c.peers q }

abbrev pub modify_peer : ℕ → (Peer → Peer) → Client → Client
modify_peer p f c = set_peer p (f (c.peers p)) c

abbrev pub run_peer : ℕ → (Peer → Outcome Peer) → Client → Outcome Client
run_peer p f c = do x ← f (c.peers p); done (set_peer p x c)

abbrev pub on_conn : (Connection → Connection) → Peer → Peer
on_conn f x = record x { conn = f x.conn }

abbrev pub on_torrent : (Torrent → Torrent) → Client → Client
on_torrent f c = record c { torrent = f c.torrent }

abbrev pub set_state : State → Peer → Peer
set_state s x = record x { state = assign s true x.state }

abbrev pub reset_state : State → Peer → Peer
reset_state s x = record x { state = assign s false x.state }

abbrev pub test_state : State → Peer → Bool
test_state s x = test s x.state

-- Both of Peer's constructors: each side starts by choking the other.
unfoldable pub new_peer : Connection → Peer
new_peer conn = record {
  has_piece_indexes = [];
  piece_queue = [];
  peer_id = [];
  conn = conn;
  state = record {
    am_choking_bit = true;
    am_interested_bit = false;
    peer_choking_bit = true;
    peer_interested_bit = false;
  };
}

unfoldable pub has_piece : List ℕ → ℕ → Bool
has_piece [] index = false
has_piece (i ∷ is) index = i == index || has_piece is index
