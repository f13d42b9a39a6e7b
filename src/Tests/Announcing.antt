-- ===== src/Tests/Announcing.antt =====
-- An announce at a concrete answer of the tracker.
use ytorrent.Base.{
  ℕ, ◌≡◌, ◌⊎◌, refl, List, [], ◌∷◌, ◌++◌, some, true, arith, Outcome, done, get_or_default, is_done,
  is_done-eq, ap, ◌∙◌,
}
use ytorrent.Tests.{all_code}
use ytorrent.Tests.Scenario.{finish_client}
use ytorrent.Client.{Client}
use ytorrent.Torrent.Query.{started}
use ytorrent.Tracker.Response.{Decoder, Exchange, Answer, answered, http_request, read_body}
use ytorrent.Tracker.Reading.{http_request-lay_out, status_line, lay_out}
use ytorrent.Tracker.Effect.{MayContact, http_request-AnnounceEffect}
use ytorrent.Torrent.Connect.Targets.{GoodTargets}

-- A body is the text of the peers itself, and the interval is 1800.
abbrev pub plain_decoder : Decoder
plain_decoder = λ body. done (body, 1800)

-- "OK\r" and the line feed come with the status, the rest in a second part: one header, and 1.2.3.4:6881.
abbrev second_part : List ℕ
second_part = b'A' ∷ b':' ∷ b'1' ∷ b'\r' ∷ b'\n' ∷ b'\r' ∷ b'\n' ∷ 1 ∷ 2 ∷ 3 ∷ 4 ∷ 26 ∷ 225 ∷ []

abbrev pub good_answer : Exchange
good_answer = record {
  resolved = true;
  connected = true;
  first = some (status_line (b'1' ∷ b'.' ∷ b'0' ∷ []) (b'O' ∷ b'K' ∷ b'\r' ∷ b'\n' ∷ []));
  more = some second_part;
}

lines_match :
    (b' ' ∷ b'O' ∷ b'K' ∷ b'\r' ∷ b'\n' ∷ []) ++ second_part
    ≡ lay_out
        ((b' ' ∷ b'O' ∷ b'K' ∷ []) ∷ (b'A' ∷ b':' ∷ b'1' ∷ []) ∷ [])
        (1 ∷ 2 ∷ 3 ∷ 4 ∷ 26 ∷ 225 ∷ [])
unfolding lay_out
lines_match = refl

http_request-lay_out_example :
    http_request plain_decoder good_answer started finish_client
    ≡ read_body plain_decoder started (some (1 ∷ 2 ∷ 3 ∷ 4 ∷ 26 ∷ 225 ∷ [])) finish_client
unfolding all_code
http_request-lay_out_example =
    http_request-lay_out plain_decoder started finish_client (b'1' ∷ b'.' ∷ b'0' ∷ [])
      (b'O' ∷ b'K' ∷ []) ((b'A' ∷ b':' ∷ b'1' ∷ []) ∷ []) (1 ∷ 2 ∷ 3 ∷ 4 ∷ 26 ∷ 225 ∷ [])
      (b'O' ∷ b'K' ∷ b'\r' ∷ b'\n' ∷ []) second_part (refl, (refl, (refl, tt))) (refl, (refl, tt))
      ((omega arith, (refl, (refl, (refl, tt)))), tt) lines_match

abbrev announced : Outcome (Answer × Client)
announced = http_request plain_decoder good_answer started finish_client

abbrev announced_client : Client
announced_client = (get_or_default announced (answered 0, finish_client)).1

returns : is_done announced ≡ true
unfolding all_code
returns = refl

interval_kept : (get_or_default announced (answered 0, finish_client)).0 ≡ answered 1800
unfolding all_code
interval_kept = refl

announces : announced ≡ done (answered 1800, announced_client)
announces =
    is_done-eq announced (answered 0, finish_client) returns
    ∙ ap (λ a. done (a, announced_client)) interval_kept

http_request-AnnounceEffect_example :
    (announced_client ≡ finish_client)
    ⊎ (MayContact started (answered 1800) × GoodTargets finish_client announced_client)
unfolding all_code
http_request-AnnounceEffect_example =
    http_request-AnnounceEffect plain_decoder good_answer started finish_client announced_client
      (answered 1800) (omega arith, tt) announces
