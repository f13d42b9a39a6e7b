-- ===== src/Tests/Accepting.antt =====
-- A piece that is accepted and one that is not, and a request that is guarded.
use ytorrent.Base.{
  ℕ, ◌<◌, ◌+◌, ◌%◌, ◌^◌, ◌≡◌, ◌≢◌, ◌⊎◌, ◌↔◌, refl, ap, List, [], ◌∷◌, true, false, replicate,
  get_or, arith, done, get_or_default, is_done, is_done-eq,
}
use ytorrent.Tests.{all_code}
use ytorrent.Tests.Scenario.{toy_platform, parsed, piece_hash}
use ytorrent.Tests.Exchange.{asking_client}
use ytorrent.Net.Incoming.{IncomingMessage, incoming_message}
use ytorrent.Client.{Client, Piece, Stream}
use ytorrent.Torrent.Parse.{build_handshake}
use ytorrent.Torrent.Store.{handle_piece_completed}
use ytorrent.Torrent.Sizes.{digest_bytes}
use ytorrent.Peer.Handshake.{is_mismatch}
use ytorrent.Peer.Handshake.Mutual.{is_mismatch-same_hash}
use ytorrent.Peer.Messages.{on_request}
use ytorrent.Peer.Messages.Guards.{SentNothing, MayAnswer, on_request-MayAnswer}
use ytorrent.Soundness.Start.{start_client}
use ytorrent.Soundness.Acceptance.{
  Returns, IsAccepted, handle_piece_completed-IsAccepted, handle_piece_completed-rejects,
}

abbrev fresh_client : Client
fresh_client = start_client parsed

abbrev missing_piece : Piece
missing_piece = record { finished = false; priority = 0; hash = piece_hash }

abbrev empty_file : Stream
empty_file = record { contents = []; position = 0; room = 1000 }

abbrev whole : List ℕ
whole = 10 ∷ 11 ∷ 12 ∷ 13 ∷ []

handle_piece_completed-IsAccepted_example :
    Returns
      (λ d. IsAccepted 0 whole missing_piece fresh_client.torrent d.torrent)
      (handle_piece_completed toy_platform 0 whole fresh_client)
unfolding all_code
handle_piece_completed-IsAccepted_example =
    handle_piece_completed-IsAccepted toy_platform 0 whole missing_piece empty_file fresh_client
      (refl, refl, omega arith, omega arith, refl, omega arith) refl

not_ten : (n : ℕ) → n < 10 → n ≢ 10
not_ten n h = λ e. absurd (omega arith)

wrong_digest : digest_bytes (toy_platform.sha1 (1 ∷ [])) ≢ piece_hash
unfolding all_code
wrong_digest = λ e. not_ten 1 (omega arith) (ap (λ (xs : List ℕ). get_or xs 3 0) e)

handle_piece_completed-rejects_example :
    handle_piece_completed toy_platform 0 (1 ∷ []) fresh_client
    ≡ done (record fresh_client {
      torrent = record (fresh_client.torrent) {
        piece_hash_misses = (fresh_client.torrent.piece_hash_misses + 1) % 2 ^ 64;
        wasted_bytes = (fresh_client.torrent.wasted_bytes + 1) % 2 ^ 64;
      };
    })
unfolding all_code
handle_piece_completed-rejects_example =
    handle_piece_completed-rejects toy_platform 0 (1 ∷ []) missing_piece fresh_client refl
      wrong_digest

abbrev some_hash : List ℕ
some_hash = replicate 20 5

is_mismatch-same_hash_example :
    (is_mismatch (build_handshake some_hash) (build_handshake some_hash) 68 ≡ false)
    ↔ (some_hash ≡ some_hash)
is_mismatch-same_hash_example = is_mismatch-same_hash some_hash some_hash refl refl

-- Bytes 0 to 3 of piece 0.
abbrev block_request : IncomingMessage
block_request = incoming_message (0 ∷ 0 ∷ 0 ∷ 0 ∷ 0 ∷ 0 ∷ 0 ∷ 0 ∷ 0 ∷ 0 ∷ 0 ∷ 4 ∷ []) 12

abbrev answered_client : Client
answered_client =
    get_or_default (on_request toy_platform 0 block_request asking_client) asking_client

is_answered : is_done (on_request toy_platform 0 block_request asking_client) ≡ true
unfolding all_code
is_answered = refl

on_request-MayAnswer_example :
    SentNothing asking_client answered_client ⊎ MayAnswer 0 block_request asking_client
on_request-MayAnswer_example =
    on_request-MayAnswer toy_platform 0 block_request asking_client answered_client
      (is_done-eq (on_request toy_platform 0 block_request asking_client) asking_client is_answered)
