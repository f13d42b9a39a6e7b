-- ===== src/Tests/Listeners.antt =====
-- The accept loop in concrete runs.
use ytorrent.Base.{
  ◌≡◌, refl, List, [], ◌∷◌, some, none, Bool, true, false, Outcome, done, get_or_default,
}
use ytorrent.Tests.{all_code}
use ytorrent.Tests.Scenario.{toy_platform, parsed}
use ytorrent.Tests.Announcing.{plain_decoder, good_answer}
use ytorrent.Utils.TrackerUrl.{no_url}
use ytorrent.Net.Acceptor.{Acceptor, new_acceptor, initiate_async_accept_loop, on_accept_error}
use ytorrent.Tracker.Announce.{Program, new_tracker}
use ytorrent.Download.{Round, accept_done, set_acceptor, download_loop}
use ytorrent.Download.Seeding.{start_seeding}
use ytorrent.Download.Listening.{Has}
use ytorrent.Download.Accepts.{Listening, Deaf, download_loop-Listening, start_seeding-Deaf}
use ytorrent.Main.{new_program}

abbrev tracked : Program
tracked = record (new_program parsed none) { main_tracker = some (new_tracker 6881 no_url) }

-- Two peers connect in one round.
abbrev visits : List Round
visits =
    record { now = 0; exchange = good_answer; events = accept_done 77 ∷ accept_done 78 ∷ [] } ∷ []

abbrev acceptor : Acceptor
acceptor = initiate_async_accept_loop (new_acceptor 6881)

abbrev visited : Outcome (Bool × Program)
visited = download_loop toy_platform plain_decoder 1 visits (set_acceptor acceptor tracked)

abbrev after_visits : Program
after_visits = (get_or_default visited (false, tracked)).1

visits_end : visited ≡ done (false, after_visits)
unfolding all_code
visits_end = refl

download_loop-Listening_example : Has Listening after_visits.acceptor
download_loop-Listening_example =
    download_loop-Listening toy_platform plain_decoder 1 6881 visits tracked after_visits false
      ((tt, (tt, tt)), tt) visits_end

abbrev failed : Program
failed = set_acceptor (on_accept_error acceptor) tracked

abbrev seeded : Outcome (Bool × Program)
seeded = start_seeding toy_platform plain_decoder visits (true, failed)

abbrev after_seeding : Program
after_seeding = (get_or_default seeded (false, tracked)).1

seeding_goes_on : seeded ≡ done (false, after_seeding)
unfolding all_code
seeding_goes_on = refl

acceptor-Listening : Listening acceptor
unfolding all_code
acceptor-Listening = (refl, refl, refl)

start_seeding-Deaf_example : Has Deaf after_seeding.acceptor
unfolding all_code
start_seeding-Deaf_example =
    start_seeding-Deaf toy_platform plain_decoder visits acceptor failed after_seeding false
      ((tt, (tt, tt)), tt) acceptor-Listening refl seeding_goes_on
