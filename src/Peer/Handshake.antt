-- ===== src/Peer/Handshake.antt =====
-- src/torrent/peer.cpp: Peer::connect and Peer::authenticate, with the callbacks that they install.
pub mod Mutual
use ytorrent.Base.{
  ℕ, List, [], ◌∷◌, some, Bool, false, not, ◌||◌, ◌&&◌, ◌==◌, if◌then◌else◌, take, drop, Outcome,
  done, ◌>>=◌,
}
use ytorrent.Net.Link.{
  read, write, connect, set_error_callback, peer_error, start_handshake, outgoing_handshake,
  incoming_handshake,
}
use ytorrent.Client.{Client, Peer, Platform, modify_peer, run_peer, on_conn, handshake_mismatch}
use ytorrent.Torrent.Sizes.{bytes_equal}
use ytorrent.Torrent.Swarm.{handle_error, handshaked}
use ytorrent.Torrent.Bitfield.{get_raw_bitfield}
use ytorrent.Peer.Send.{send_bitfield}
use ytorrent.Peer.Messages.{keep_reading}

-- "BitTorrent protocol".
abbrev pub protocol_name : List ℕ
protocol_name =
    b'B' ∷ b'i' ∷ b't' ∷ b'T' ∷ b'o' ∷ b'r' ∷ b'r' ∷ b'e' ∷ b'n' ∷ b't' ∷ b' ' ∷ b'p' ∷ b'r' ∷ b'o'
    ∷ b't' ∷ b'o' ∷ b'c' ∷ b'o' ∷ b'l' ∷ []

unfoldable pub first_is : ℕ → List ℕ → Bool
first_is n [] = false
first_is n (b ∷ _) = b == n

-- The test that refuses a handshake. The comparisons are made on 68 bytes only.
unfoldable pub is_mismatch : List ℕ → List ℕ → ℕ → Bool
is_mismatch mine theirs size =
    not (size == 68)
    || (not (first_is 19 theirs) && not (bytes_equal (take 19 (drop 1 theirs)) protocol_name))
    || not (bytes_equal (take 20 (drop 28 theirs)) (take 20 (drop 28 mine)))

abbrev pub set_id : List ℕ → Peer → Peer
set_id theirs x = record x { peer_id = take 20 (drop 48 theirs) }

unfoldable pub peer_connect : List ℕ → List ℕ → Peer → Peer
peer_connect ip port x =
    on_conn (λ k. connect ip port start_handshake (set_error_callback (some peer_error) k)) x

-- The connect callback: our handshake goes out, and the peer's is read.
unfoldable pub on_connect : ℕ → Client → Client
on_connect p c =
    modify_peer p (on_conn (λ k. read 68 outgoing_handshake (write c.torrent.handshake 68 k))) c

unfoldable pub on_outgoing_handshake : ℕ → List ℕ → ℕ → Client → Client
on_outgoing_handshake p theirs size c =
    if is_mismatch c.torrent.handshake theirs size
    then handle_error p handshake_mismatch c
    else keep_reading p (handshaked p (modify_peer p (set_id theirs) c))

unfoldable pub authenticate : Peer → Peer
authenticate x =
    on_conn (λ k. read 68 incoming_handshake (set_error_callback (some peer_error) k)) x

unfoldable pub on_incoming_handshake : Platform → ℕ → List ℕ → ℕ → Client → Outcome Client
on_incoming_handshake platform p theirs size c =
    if is_mismatch c.torrent.handshake theirs size
    then done (handle_error p handshake_mismatch c)
    else (do
      let d =
          handshaked p (
            modify_peer p (on_conn (write c.torrent.handshake 68))
              (modify_peer p (set_id theirs) c))
      e ← run_peer p (send_bitfield (get_raw_bitfield platform d.torrent)) d
      done (keep_reading p e))
