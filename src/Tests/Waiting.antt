-- ===== src/Tests/Waiting.antt =====
-- What a connection waits for in a concrete run.
use ytorrent.Base.{◌≡◌, refl, done, get_or_default, arith}
use ytorrent.Tests.{all_code}
use ytorrent.Tests.Scenario.{toy_platform, hello, parsed}
use ytorrent.Client.{Client}
use ytorrent.Session.{success}
use ytorrent.Soundness.Start.{start_client}
use ytorrent.Events.{read_done, accepted, step}
use ytorrent.Outstanding.{Calm, pending}
use ytorrent.Outstanding.Run.{here, next, Orderly-Calm}

-- A peer is accepted, and its handshake is read.
abbrev fresh : Client
fresh = start_client parsed

abbrev with_peer : Client
with_peer = get_or_default (step toy_platform (accepted 77) fresh) fresh

abbrev greeted : Client
greeted = get_or_default (step toy_platform (read_done 0 success hello) with_peer) with_peer

accepts : step toy_platform (accepted 77) fresh ≡ done with_peer
unfolding all_code
accepts = refl

greets : step toy_platform (read_done 0 success hello) with_peer ≡ done greeted
unfolding all_code
greets = refl

waits_for_one : pending (greeted.peers 0).conn ≡ 1
unfolding all_code
waits_for_one = refl

fresh-Calm : Calm fresh
unfolding all_code
fresh-Calm q = omega arith

Orderly-Calm_example : Calm greeted
unfolding all_code
Orderly-Calm_example =
    Orderly-Calm toy_platform fresh greeted fresh-Calm
      (next (read_done 0 success hello) (next (accepted 77) here tt accepts) (omega arith) greets)
