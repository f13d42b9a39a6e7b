-- ===== src/Tests/Scenario.antt =====
-- A torrent of one piece of four bytes, and a peer that delivers it.
use ytorrent.Base.{
  ℕ, ◌≡◌, refl, List, [], ◌∷◌, ◌++◌, some, none, true, false, length, get_or, replicate, arith,
  Outcome, done, get_or_default, is_done, is_done-eq,
}
use ytorrent.Tests.{all_code}
use ytorrent.Client.{Client, Torrent, Platform}
use ytorrent.Torrent.Parse.{
  ParseResult, success as parsed_well, failed_to_open, build_handshake, Metainfo, FileSystem,
  new_torrent, parse_file,
}
use ytorrent.Session.{success}
use ytorrent.Torrent.Sizes.{digest_bytes}
use ytorrent.Events.{Event, read_done, accepted, Reach, run, run-Reach}
use ytorrent.Soundness.{Sound, file_bytes}
use ytorrent.Soundness.Start.{start_client, Reach-parse_file}

-- A digest of five words that shows the first byte and the length.
abbrev pub toy_platform : Platform
toy_platform = record {
  sha1 = λ bytes. get_or bytes 0 0 ∷ length bytes ∷ 0 ∷ 0 ∷ 0 ∷ [];
  to_block_range = λ bits. 0 ∷ [];
  new_array = λ n. replicate n 0;
}

abbrev pub piece_hash : List ℕ
piece_hash = 0 ∷ 0 ∷ 0 ∷ 10 ∷ 0 ∷ 0 ∷ 0 ∷ 4 ∷ replicate 12 0

abbrev meta : Metainfo
meta = record {
  announce = some (b'u' ∷ []);
  info = some (9 ∷ 9 ∷ []);
  name = some (b'f' ∷ []);
  piece_length = some 16384;
  pieces = some piece_hash;
  files = false;
  length = some 4;
}

abbrev disk : FileSystem
disk = record {
  torrent_opens = true;
  node_exists = false;
  created = some (record { contents = []; position = 0; room = 1000 });
  opened = none;
}

abbrev result : Outcome (ParseResult × Torrent)
result = parse_file toy_platform disk meta [] new_torrent

-- parseFile's torrent.
abbrev pub parsed : Torrent
parsed = (get_or_default result (failed_to_open, new_torrent)).1

-- A handshake for this torrent, and the events of a download: the peer connects, shakes hands, says that
-- it has piece 0, unchokes, and sends the block.
abbrev pub hello : List ℕ
hello = build_handshake (digest_bytes (toy_platform.sha1 (9 ∷ 9 ∷ [])))

abbrev message : List ℕ → List Event
message body = read_done 0 success (0 ∷ 0 ∷ 0 ∷ length body ∷ []) ∷ read_done 0 success body ∷ []

abbrev download : List Event
download =
    accepted 77
    ∷ read_done 0 success hello
    ∷ (message (5 ∷ 0x80 ∷ [])
        ++ (message (1 ∷ [])
            ++ message (7 ∷ 0 ∷ 0 ∷ 0 ∷ 0 ∷ 0 ∷ 0 ∷ 0 ∷ 0 ∷ 10 ∷ 11 ∷ 12 ∷ 13 ∷ [])))

abbrev pub finish_client : Client
finish_client =
    get_or_default (run toy_platform download (start_client parsed)) (start_client parsed)

parses : result ≡ done (parsed_well, parsed)
unfolding all_code
parses = refl

completes : is_done (run toy_platform download (start_client parsed)) ≡ true
unfolding all_code
completes = refl

-- The piece is counted, and its bytes are in the file.
download_counts : finish_client.torrent.completed_pieces ≡ 1
unfolding all_code
download_counts = refl

download_stores : file_bytes finish_client.torrent.file.fp ≡ 10 ∷ 11 ∷ 12 ∷ 13 ∷ []
unfolding all_code
download_stores = refl

pub finish_Reach : Reach toy_platform (start_client parsed) finish_client
finish_Reach =
    run-Reach toy_platform download (start_client parsed)
      (is_done-eq (run toy_platform download (start_client parsed)) (start_client parsed) completes)

Reach-parse_file_example : Sound toy_platform 16384 finish_client
unfolding all_code
Reach-parse_file_example =
    Reach-parse_file toy_platform disk meta [] 16384 parsed finish_client refl refl parses
      (omega arith) (omega arith) finish_Reach
