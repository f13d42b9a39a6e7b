-- ===== src/Tests/Downloading.antt =====
-- A whole run of main: the announce, a peer that is contacted and delivers the piece, the last announce.
use ytorrent.Base.{
  ℕ, ◌≡◌, refl, List, [], ◌∷◌, ◌++◌, Option, some, none, true, false, length, arith, Outcome, done,
  Ensures-done, get_or_default,
}
use ytorrent.Tests.{all_code}
use ytorrent.Tests.Scenario.{toy_platform, piece_hash, hello}
use ytorrent.Tests.Announcing.{plain_decoder, good_answer}
use ytorrent.Client.{Torrent}
use ytorrent.Torrent.Parse.{
  success as parsed_well, failed_to_open, Metainfo, FileSystem, new_torrent, parse_file,
}
use ytorrent.Session.{success}
use ytorrent.Soundness.{Sound, file_bytes}
use ytorrent.Soundness.Start.{ParsesSound, parse_file-ParsesSound}
use ytorrent.Tracker.Announce.{Program}
use ytorrent.Download.{
  IoEvent, read_done, resolve_done, connect_done, Round, Environment, DownloadError, completed,
  download,
}
use ytorrent.Download.Complete.{Ended, download-Ended}
use ytorrent.Main.{CommandLine, Ending, exit, new_program, main}
use ytorrent.Main.Files.{EndsWhole, main-EndsWhole}

-- "http://t/ann".
abbrev url : List ℕ
url = b'h' ∷ b't' ∷ b't' ∷ b'p' ∷ b':' ∷ b'/' ∷ b'/' ∷ b't' ∷ b'/' ∷ b'a' ∷ b'n' ∷ b'n' ∷ []

abbrev pub meta : Metainfo
meta = record {
  announce = some url;
  info = some (9 ∷ 9 ∷ []);
  name = some (b'f' ∷ []);
  piece_length = some 16384;
  pieces = some piece_hash;
  files = false;
  length = some 4;
}

abbrev pub disk : FileSystem
disk = record {
  torrent_opens = true;
  node_exists = false;
  created = some (record { contents = []; position = 0; room = 1000 });
  opened = none;
}

abbrev pub parsed : Torrent
parsed =
    (get_or_default (parse_file toy_platform disk meta [] new_torrent)
      (failed_to_open, new_torrent)).1

parses : parse_file toy_platform disk meta [] new_torrent ≡ done (parsed_well, parsed)
unfolding all_code
parses = refl

abbrev message : List ℕ → List IoEvent
message body = read_done 0 success (0 ∷ 0 ∷ 0 ∷ length body ∷ []) ∷ read_done 0 success body ∷ []

-- The peer that the tracker named is resolved and connected, shakes hands, says that it has piece 0,
-- unchokes, and sends the block.
abbrev peer_events : List IoEvent
peer_events =
    resolve_done 0 success
    ∷ connect_done 0 success 0x04030201
    ∷ read_done 0 success hello
    ∷ (message (5 ∷ 0x80 ∷ [])
        ++ (message (1 ∷ [])
            ++ message (7 ∷ 0 ∷ 0 ∷ 0 ∷ 0 ∷ 0 ∷ 0 ∷ 0 ∷ 0 ∷ 10 ∷ 11 ∷ 12 ∷ 13 ∷ [])))

abbrev quiet : List IoEvent → Round
quiet events = record { now = 10; exchange = good_answer; events = events }

abbrev pub network : Environment
network = record {
  first = quiet [];
  port_is_free = true;
  rounds = quiet peer_events ∷ quiet [] ∷ [];
  last = quiet [];
}

abbrev pub args : CommandLine
args = record {
  no_arguments = false;
  parses = true;
  help = false;
  version = false;
  torrent = true;
  log_opens = true;
  seed = false;
  startport = 6881;
  dir = [];
}

abbrev start : Program
start = new_program parsed none

abbrev ended : Outcome (Ending × Program)
ended = main toy_platform plain_decoder disk meta network network args

-- The process ends with exit code 0, and the file is there.
ends_well : (get_or_default ended (exit 1, start)).0 ≡ exit 0
unfolding all_code
ends_well = refl

ends_with_file :
    file_bytes (get_or_default ended (exit 1, start)).1.client.torrent.file.fp
    ≡ 10 ∷ 11 ∷ 12 ∷ 13 ∷ []
unfolding all_code
ends_with_file = refl

abbrev last_program : Program
last_program = (get_or_default ended (exit 1, start)).1

main_ends : ended ≡ done (exit 0, last_program)
unfolding all_code
main_ends = refl

main-EndsWhole_example : EndsWhole toy_platform 16384 parsed (exit 0, last_program)
unfolding all_code
main-EndsWhole_example =
    main-EndsWhole toy_platform plain_decoder disk meta network network args 16384 parsed (exit 0)
      last_program
      (record {
        given = refl;
        parsed = refl;
        no_help = refl;
        no_version = refl;
        a_torrent = refl;
        a_log = refl;
      })
      refl refl parses (omega arith) (omega arith) main_ends

start-Sound : Sound toy_platform 16384 start.client
unfolding all_code
start-Sound = (
  Ensures-done (ParsesSound toy_platform 16384) (parse_file toy_platform disk meta [] new_torrent)
      parses (parse_file-ParsesSound toy_platform disk meta 16384 [] refl) refl (omega arith)
      (omega arith),
  λ p. tt,
)

abbrev downloaded : Outcome (Option DownloadError × Program)
downloaded = download toy_platform plain_decoder network 6881 false start

downloads : downloaded ≡ done (some completed, (get_or_default downloaded (none, start)).1)
unfolding all_code
downloads = refl

download-Ended_example :
    Ended toy_platform 16384 parsed (some completed, (get_or_default downloaded (none, start)).1)
unfolding all_code
download-Ended_example =
    download-Ended toy_platform 16384 plain_decoder network 6881 false start
      (get_or_default downloaded (none, start)).1 (some completed) refl start-Sound downloads
