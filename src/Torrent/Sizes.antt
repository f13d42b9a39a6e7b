-- ===== src/Torrent/Sizes.antt =====
-- src/torrent/torrent.cpp and torrent.hpp: piece sizes, the flags of the pieces, the hash check.
use ytorrent.Base.{
  ℕ, ◌+◌, ◌-◌, ◌%◌, ◌^◌, List, [], ◌∷◌, ◌++◌, Option, some, none, Bool, true, false, ◌&&◌, ◌==◌,
  leb, if◌then◌else◌, length, get_elem?, Outcome, done, undefined,
}
use ytorrent.Utils.Transcoder.{write_as_be32}
use ytorrent.Client.{Torrent, Piece, Platform}

-- The int64_t result is its bit pattern. Division by zero is undefined.
unfoldable pub piece_size : Torrent → ℕ → Outcome ℕ
piece_size t index =
    if index == (length t.pieces + 2 ^ 64 - 1) % 2 ^ 64
    then (if t.piece_length == 0
        then undefined
        else if t.total_size % t.piece_length == 0
        then done t.piece_length
        else done (t.total_size % t.piece_length))
    else done t.piece_length

unfoldable pub finished_flag : Option Piece → Outcome Bool
finished_flag none = undefined
finished_flag (some p) = done p.finished

-- `pieces[pieceIndex]` is not checked: past the end it is undefined.
unfoldable pub piece_done : Torrent → ℕ → Outcome Bool
piece_done t index = finished_flag (get_elem? t.pieces index)

unfoldable pub is_fully_downloaded : Torrent → Bool
is_fully_downloaded t = t.completed_pieces == length t.pieces

-- `memcmp(a, b, n) == 0` of two arrays that hold `n` bytes.
unfoldable pub bytes_equal : List ℕ → List ℕ → Bool
bytes_equal [] [] = true
bytes_equal [] (_ ∷ _) = false
bytes_equal (_ ∷ _) [] = false
bytes_equal (x ∷ xs) (y ∷ ys) = x == y && bytes_equal xs ys

-- The bytes of a digest, word by word.
unfoldable pub digest_bytes : List ℕ → List ℕ
digest_bytes [] = []
digest_bytes (sum ∷ sums) = write_as_be32 sum ++ digest_bytes sums

unfoldable pub hash_matches : List ℕ → Option Piece → Bool
hash_matches piece_hash none = false
hash_matches piece_hash (some p) = bytes_equal piece_hash p.hash

unfoldable pub check_piece_hash : Platform → List ℕ → ℕ → Torrent → Bool
check_piece_hash platform bytes index t =
    if leb (length t.pieces) index
    then false
    else hash_matches (digest_bytes (platform.sha1 bytes)) (get_elem? t.pieces index)
