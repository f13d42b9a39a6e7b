-- ===== src/Torrent/Swarm.antt =====
-- src/torrent/torrent.cpp: the peers that the torrent knows, and Peer::disconnect and handleError of
-- src/torrent/peer.cpp, which act on them.
use ytorrent.Base.{ℕ, List, [], ◌∷◌, ◌++◌, none, Bool, false, ◌||◌, ◌==◌, if◌then◌else◌}
use ytorrent.Net.Link.{close, set_error_callback, get_ip}
use ytorrent.Client.{Client, Peer, Torrent, PeerError, on_torrent, modify_peer, on_conn}

unfoldable pub get_raw_ip : Client → ℕ → ℕ
get_raw_ip c p = get_ip (c.peers p).conn

unfoldable pub is_black_listed : List ℕ → ℕ → Bool
is_black_listed [] ip = false
is_black_listed (x ∷ xs) ip = x == ip || is_black_listed xs ip

-- `unordered_set::insert`, which keeps one copy.
unfoldable pub black_list_insert : ℕ → List ℕ → List ℕ
unfolding is_black_listed
black_list_insert ip xs = if is_black_listed xs ip then xs else ip ∷ xs

unfoldable pub black_list_erase : ℕ → List ℕ → List ℕ
black_list_erase ip [] = []
black_list_erase ip (x ∷ xs) =
    if x == ip then black_list_erase ip xs else x ∷ black_list_erase ip xs

unfoldable pub add_peer : ℕ → Torrent → Torrent
add_peer p t = record t { active_peers = t.active_peers ++ p ∷ [] }

unfoldable pub handshaked : ℕ → Client → Client
handshaked p c =
    on_torrent (λ t. record t { black_listed = black_list_erase (get_raw_ip c p) t.black_listed })
      (on_torrent (add_peer p) c)

-- Erases the first peer at the address `ip`.
unfoldable pub erase_first : (ℕ → ℕ) → ℕ → List ℕ → List ℕ
erase_first raw_ip ip [] = []
erase_first raw_ip ip (q ∷ qs) = if ip == raw_ip q then qs else q ∷ erase_first raw_ip ip qs

unfoldable pub remove_peer : ℕ → PeerError → Client → Client
remove_peer p errmsg c =
    record (on_torrent
      (λ t. record t { active_peers = erase_first (get_raw_ip c) (get_raw_ip c p) t.active_peers })
      c) { log = c.log ++ errmsg ∷ [] }

unfoldable pub disconnect_peer : Peer → Peer
unfolding close set_error_callback
disconnect_peer x = on_conn (λ k. set_error_callback none (close k)) x

unfoldable pub disconnect : ℕ → Client → Client
disconnect p c = modify_peer p disconnect_peer c

-- Peer::handleError: first off the list, then off the network.
unfoldable pub handle_error : ℕ → PeerError → Client → Client
handle_error p errmsg c = disconnect p (remove_peer p errmsg c)
