-- ===== src/Torrent/Parse.antt =====
-- src/torrent/torrent.cpp: the constructor and Torrent::parseFile. The bencoding library and the file
-- system answer through `Metainfo` and `FileSystem`.
use Prim.Native.Nat.{zero, suc}
use ytorrent.Base.{
  ℕ, ◌+◌, ◌-◌, ◌/◌, List, [], ◌∷◌, ◌++◌, Option, some, none, Bool, false, if◌then◌else◌, leb,
  length, take, drop, replicate, Outcome, done, undefined, ◌>>=◌,
}
use ytorrent.Client.{Torrent, Piece, Stream, Platform}
use ytorrent.Torrent.Sizes.{digest_bytes}
use ytorrent.Peer.Handshake.{protocol_name}

-- enum ParseResult of src/utils/utils.hpp.
pub data ParseResult : Type 0 where
  success corrupted_file failed_to_open : ParseResult

-- The values in the decoded torrent file, `none` where the key or the type is missing; `info` is the
-- encoded info dictionary, `files` tells whether it lists several files.
pub record Metainfo : Type 0 where
  pub announce : Option (List ℕ)
  pub info : Option (List ℕ)
  pub name : Option (List ℕ)
  pub piece_length : Option ℕ
  pub pieces : Option (List ℕ)
  pub files : Bool
  pub length : Option ℕ

-- `torrent_opens`: whether the torrent file can be read; `node_exists`: whether there is a file of that
-- name; `opened`: what fopen returns.
pub record FileSystem : Type 0 where
  pub torrent_opens : Bool
  pub node_exists : Bool
  pub created : Option Stream
  pub opened : Option Stream

-- Torrent::Torrent.
unfoldable pub new_torrent : Torrent
new_torrent = record {
  active_peers = [];
  black_listed = [];
  pieces = [];
  file = record { fp = none; begin = 0; length = 0 };
  bitfield = [];
  completed_pieces = 0;
  uploaded_bytes = 0;
  downloaded_bytes = 0;
  wasted_bytes = 0;
  piece_hash_misses = 0;
  piece_length = 0;
  total_size = 0;
  handshake = replicate 68 0;
  own_id = replicate 20 0;
  name = [];
  main_tracker_url = [];
  download_dir = [];
}

-- A null pointer must not be followed.
abbrev pub value_of {ℓ} : {A : Type ℓ} → Option A → Outcome A
value_of none = undefined
value_of (some a) = done a

-- "-YT00000000000000000".
abbrev pub client_id : List ℕ
client_id = b'-' ∷ b'Y' ∷ b'T' ∷ replicate 17 b'0'

unfoldable pub build_handshake : List ℕ → List ℕ
build_handshake check_sum =
    0x13 ∷ (protocol_name ++ (replicate 8 0 ++ (take 20 check_sum ++ client_id)))

-- One round for each 20 bytes of the string, from the buffer that c_str() gives.
unfoldable pub read_pieces : ℕ → List ℕ → Outcome (List Piece)
read_pieces zero buffer = done []
read_pieces (suc rounds) buffer =
    if leb 20 (length buffer)
    then (do
      rest ← read_pieces rounds (drop 20 buffer)
      done (record { finished = false; priority = 0; hash = take 20 buffer } ∷ rest))
    else undefined

unfoldable pub parse_pieces : List ℕ → Outcome (List Piece)
parse_pieces pieces_str = read_pieces ((length pieces_str + 19) / 20) (pieces_str ++ 0 ∷ [])

-- `bitfield.resize(n)`: new bits are 0.
unfoldable pub resize : ℕ → List Bool → List Bool
resize n bits = take n bits ++ replicate (n - length bits) false

-- Everything that parseFile reads before it looks at the files.
unfoldable pub read_metainfo : Platform → Metainfo → List ℕ → Torrent → Outcome Torrent
read_metainfo platform m dir t = do
  url ← value_of m.announce
  info ← value_of m.info
  name ← value_of m.name
  piece_length ← value_of m.piece_length
  pieces_str ← value_of m.pieces
  pieces ← parse_pieces pieces_str
  done (record t {
    main_tracker_url = url;
    handshake = build_handshake (digest_bytes (platform.sha1 info));
    own_id = client_id;
    name = name;
    piece_length = piece_length;
    pieces = t.pieces ++ pieces;
    bitfield = resize (length (t.pieces ++ pieces)) t.bitfield;
    download_dir = dir;
  })

unfoldable pub open_result : Option Stream → ℕ → Torrent → ParseResult × Torrent
open_result none size t = (failed_to_open, t)
open_result (some s) size t =
    (success, record t { total_size = size; file = record { fp = some s; begin = 0; length = 0 } })

unfoldable pub open_target : FileSystem → Metainfo → Torrent → Outcome (ParseResult × Torrent)
open_target fs m t = if m.files then done (corrupted_file, t) else (do
  size ← value_of m.length
  done (open_result (if fs.node_exists then fs.opened else fs.created) size t))

unfoldable pub parse_file :
    Platform → FileSystem → Metainfo → List ℕ → Torrent → Outcome (ParseResult × Torrent)
parse_file platform fs m dir t =
    if fs.torrent_opens
    then (do t' ← read_metainfo platform m dir t; open_target fs m t')
    else done (failed_to_open, t)
