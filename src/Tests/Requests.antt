-- ===== src/Tests/Requests.antt =====
-- A piece of three blocks is asked for.
use ytorrent.Base.{◌≡◌, refl, true, map, arith, done}
use ytorrent.Tests.{all_code}
use ytorrent.Tests.Scenario.{finish_client}
use ytorrent.Client.{Client, modify_peer, set_peer, reset_state, peer_choking, on_torrent, on_conn}
use ytorrent.Peer.Request.{request_piece}
use ytorrent.Peer.Tiling.{tiling}
use ytorrent.Peer.Tiling.Requests.{asked, request_of, request_piece-requests}

-- Peer 0 is connected and does not choke us, and the only piece has 40000 bytes.
abbrev waiting_client : Client
waiting_client =
    modify_peer 0 (λ x. reset_state peer_choking (on_conn (λ k. record k { is_open = true }) x))
      (on_torrent (λ t. record t { piece_length = 65536; total_size = 40000 }) finish_client)

request_piece-requests_example :
    request_piece 0 0 waiting_client
    ≡ done (
        set_peer 0
          (asked (map (request_of 0) (tiling 40000)) (waiting_client.peers 0))
          waiting_client)
unfolding all_code
request_piece-requests_example =
    request_piece-requests 0 0 40000 waiting_client refl refl refl (omega arith) (omega arith)
