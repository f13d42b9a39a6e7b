-- ===== src/Peer/MessageId.antt =====
-- enum Peer::MessageID of src/torrent/peer.hpp.
use ytorrent.Base.{ℕ}

abbrev pub choke : ℕ
choke = 0

abbrev pub unchoke : ℕ
unchoke = 1

abbrev pub interested : ℕ
interested = 2

abbrev pub not_interested : ℕ
not_interested = 3

abbrev pub have : ℕ
have = 4

abbrev pub bitfield : ℕ
bitfield = 5

abbrev pub request : ℕ
request = 6

abbrev pub piece_block : ℕ
piece_block = 7

abbrev pub cancel : ℕ
cancel = 8
