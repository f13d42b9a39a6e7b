-- ===== src/Tests/Machines.antt =====
-- The abstract machine at the run of a whole download.
use ytorrent.Tests.Scenario.{toy_platform, finish_client, parsed, finish_Reach}
use ytorrent.Soundness.Start.{start_client}
use ytorrent.Machine.{Moves}
use ytorrent.Machine.Run.{Reach-Moves}
use ytorrent.Machine.Progress.{Advances, Reach-Advances}

Reach-Moves_example : Moves toy_platform parsed finish_client.torrent
Reach-Moves_example = Reach-Moves toy_platform (start_client parsed) finish_client finish_Reach

Reach-Advances_example : Advances parsed finish_client.torrent
Reach-Advances_example =
    Reach-Advances toy_platform (start_client parsed) finish_client finish_Reach
