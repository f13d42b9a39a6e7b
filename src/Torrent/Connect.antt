-- ===== src/Torrent/Connect.antt =====
-- src/torrent/torrent.cpp: the addresses that a tracker names.
pub mod Targets
use Prim.Native.Nat.{zero, suc}
use ytorrent.Base.{
  ℕ, ◌+◌, ◌/◌, List, [], ◌∷◌, ◌++◌, Bool, false, ◌||◌, ◌==◌, if◌then◌else◌, length, drop, Outcome,
  done, ◌>>=◌,
}
use ytorrent.Utils.Transcoder.{read_as_le32, read_as_be16}
use ytorrent.Utils.Text.{parse_ip, to_string}
use ytorrent.Net.Link.{new_connection}
use ytorrent.Client.{Client, on_torrent, modify_peer}
use ytorrent.Torrent.Swarm.{get_raw_ip, is_black_listed, black_list_insert}
use ytorrent.Peer.Handshake.{peer_connect}
use ytorrent.Session.{make_peer}

-- Is one of the active peers at that address?
unfoldable pub is_active : Client → List ℕ → ℕ → Bool
is_active c [] ip = false
is_active c (p ∷ ps) ip = get_raw_ip c p == ip || is_active c ps ip

-- `ip` is 0, black-listed, or an active peer's.
unfoldable pub is_skipped : Client → ℕ → Bool
is_skipped c ip =
    (ip == 0 || is_black_listed c.torrent.black_listed ip) || is_active c c.torrent.active_peers ip

-- A new peer object that starts to connect.
unfoldable pub start_peer : ℕ → ℕ → Client → Client
start_peer ip port c = modify_peer c.allocated (peer_connect (parse_ip ip) (to_string port)) (
    on_torrent (λ t. record t { black_listed = black_list_insert ip t.black_listed })
      (make_peer new_connection c))

unfoldable pub connect_to_peer : List ℕ → Client → Outcome Client
connect_to_peer ip_and_port c = do
  ip ← read_as_le32 ip_and_port
  (if is_skipped c ip
      then done c
      else (do port ← read_as_be16 (drop 4 ip_and_port); done (start_peer ip port c)))

-- One round for each 6 bytes.
unfoldable pub connect_loop : ℕ → List ℕ → Client → Outcome Client
connect_loop zero peers c = done c
connect_loop (suc rounds) peers c = do
  d ← connect_to_peer peers c
  connect_loop rounds (drop 6 peers) d

-- `peers` is the buffer of a C string: a null character follows its `size` bytes.
unfoldable pub connect_to_peers : List ℕ → Client → Outcome Client
connect_to_peers peers c = connect_loop ((length peers + 5) / 6) (peers ++ 0 ∷ []) c
