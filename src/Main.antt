-- ===== src/Main.antt =====
-- src/main.cpp: the control flow of main. Boost's option parser and the log file answer through
-- `CommandLine`; the console output is left out.
pub mod Files
use ytorrent.Base.{
  ℕ, ◌+◌, ◌%◌, ◌^◌, List, [], Option, some, none, Bool, not, if◌then◌else◌, Outcome, done, ◌>>=◌,
}
use ytorrent.Net.Link.{new_connection}
use ytorrent.Client.{Torrent, Stream, Platform, new_peer}
use ytorrent.Torrent.Parse.{
  ParseResult, success, corrupted_file, failed_to_open, Metainfo, FileSystem, new_torrent,
  parse_file,
}
use ytorrent.Tracker.Response.{Decoder}
use ytorrent.Tracker.Announce.{Program}
use ytorrent.Download.{
  Environment, DownloadError, completed, tracker_query_failure, network_error, download,
}
use ytorrent.Download.Seeding.{seed}

-- What the arguments say, with the defaults put in.
pub record CommandLine : Type 0 where
  pub no_arguments : Bool
  pub parses : Bool
  pub help : Bool
  pub version : Bool
  pub torrent : Bool
  pub log_opens : Bool
  pub seed : Bool
  pub startport : ℕ
  pub dir : List ℕ

-- What the process comes to: it ends with an exit code, or is still downloading or seeding.
pub data Ending : Type 0 where
  exit : ℕ → Ending
  downloading seeding : Ending

-- A new Torrent's part of the client. `disk` is what a later fopen of the file gives.
unfoldable pub new_program : Torrent → Option Stream → Program
new_program t disk = record {
  client = record {
    torrent = t;
    peers = λ p. new_peer new_connection;
    allocated = 0;
    disk = disk;
    log = [];
  };
  main_tracker = none;
  acceptor = none;
  requests = [];
}

-- seed is called with the port that `startport++` left behind, a uint16_t.
unfoldable pub maybe_seed :
    Platform → Decoder → Environment → CommandLine → Program → Outcome (Ending × Program)
maybe_seed platform decode env args p =
    if args.seed
    then (do
      (returned, p') ← seed platform decode env ((args.startport + 1) % 2 ^ 16) p
      done (if returned then exit 0 else seeding, p'))
    else done (exit 0, p)

unfoldable pub after_download :
    Platform
    → Decoder
    → Environment
    → CommandLine
    → Option DownloadError × Program
    → Outcome (Ending × Program)
after_download platform decode env args (none, p) = done (downloading, p)
after_download platform decode env args (some completed, p) = maybe_seed platform decode env args p
after_download platform decode env args (some tracker_query_failure, p) = done (exit 1, p)
after_download platform decode env args (some network_error, p) = done (exit 1, p)

unfoldable pub after_parse :
    Platform
    → Decoder
    → Environment
    → Environment
    → CommandLine
    → Option Stream
    → ParseResult × Torrent
    → Outcome (Ending × Program)
after_parse platform decode env env' args disk (corrupted_file, t) =
    done (exit 1, new_program t disk)
after_parse platform decode env env' args disk (failed_to_open, t) =
    done (exit 1, new_program t disk)
after_parse platform decode env env' args disk (success, t) = do
  r ← download platform decode env args.startport args.seed (new_program t disk)
  after_download platform decode env' args r

-- `env` is for the download, `env'` for the seeding.
unfoldable pub main :
    Platform
    → Decoder
    → FileSystem
    → Metainfo
    → Environment
    → Environment
    → CommandLine
    → Outcome (Ending × Program)
main platform decode fs m env env' args =
    if args.no_arguments
    then done (exit 1, new_program new_torrent fs.opened)
    else if not args.parses
    then done (exit 1, new_program new_torrent fs.opened)
    else if args.help
    then done (exit 0, new_program new_torrent fs.opened)
    else if args.version
    then done (exit 0, new_program new_torrent fs.opened)
    else if not args.torrent
    then done (exit 1, new_program new_torrent fs.opened)
    else if not args.log_opens
    then done (exit 1, new_program new_torrent fs.opened)
    else (do
      r ← parse_file platform fs m args.dir new_torrent
      after_parse platform decode env env' args fs.opened r)
