-- ===== src/Tests/Choosing.antt =====
-- Which piece and which addresses are chosen at concrete states.
use ytorrent.Base.{
  ℕ, ◌+◌, ◌≡◌, refl, List, [], ◌∷◌, true, arith, get_or_default, is_done, is_done-eq,
}
use ytorrent.Tests.{all_code}
use ytorrent.Client.{Client}
use ytorrent.Tests.Scenario.{finish_client}
use ytorrent.Torrent.Select.{Selection, act_on, select_piece_and_request}
use ytorrent.Torrent.Select.Rarest.{IsRarest, select_piece_and_request-IsRarest}
use ytorrent.Torrent.Connect.{connect_to_peers}
use ytorrent.Torrent.Connect.Targets.{GoodTargets, connect_to_peers-GoodTargets}

select_piece_and_request-IsRarest_example :
    (s : Selection) × IsRarest
      (finish_client.peers 0).has_piece_indexes
      finish_client.torrent.pieces
      s
    × (select_piece_and_request 0 finish_client ≡ act_on 0 s finish_client)
select_piece_and_request-IsRarest_example = select_piece_and_request-IsRarest 0 finish_client

-- 1.2.3.4 twice, and 0.0.0.0.
abbrev addresses : List ℕ
addresses = 1 ∷ 2 ∷ 3 ∷ 4 ∷ 26 ∷ 225 ∷ 1 ∷ 2 ∷ 3 ∷ 4 ∷ 26 ∷ 225 ∷ 0 ∷ 0 ∷ 0 ∷ 0 ∷ 1 ∷ 1 ∷ []

abbrev contacting_client : Client
contacting_client = get_or_default (connect_to_peers addresses finish_client) finish_client

contacts : is_done (connect_to_peers addresses finish_client) ≡ true
unfolding all_code
contacts = refl

-- One connection is started.
contacts_once : contacting_client.allocated ≡ finish_client.allocated + 1
unfolding all_code
contacts_once = refl

connect_to_peers-GoodTargets_example : GoodTargets finish_client contacting_client
unfolding all_code
connect_to_peers-GoodTargets_example =
    connect_to_peers-GoodTargets addresses finish_client contacting_client (omega arith, tt)
      (is_done-eq (connect_to_peers addresses finish_client) finish_client contacts)
