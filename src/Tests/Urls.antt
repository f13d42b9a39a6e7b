-- ===== src/Tests/Urls.antt =====
-- Announce URLs.
use ytorrent.Base.{ℕ, ◌≡◌, ◌↔◌, refl, List, [], ◌∷◌, ◌++◌, some}
use ytorrent.Tests.{all_code}
use ytorrent.Utils.TrackerUrl.{
  Groups, http_text, ann_text, pass_key_text, match_with_port, match_without_port,
  parse_tracker_url,
}
use ytorrent.Utils.TrackerUrl.Grammar.{
  HasPort, HasNoPort, match_with_port_iff, match_without_port_iff,
}
use ytorrent.Utils.TrackerUrl.Result.{
  ParsesTo, Unmatched, parse_tracker_url-ParsesTo, parse_tracker_url-host,
}

-- "http://t.org:81/announce?passkey=ab".
abbrev url : List ℕ
url =
    http_text
    ++ (b't' ∷ b'.' ∷ b'o' ∷ b'r' ∷ b'g' ∷ [])
    ++ (b':' ∷ b'8' ∷ b'1' ∷ [])
    ++ (ann_text ++ b'o' ∷ [])
    ++ (pass_key_text ++ b'a' ∷ b'b' ∷ [])

abbrev groups : Groups
groups = record {
  protocol = http_text;
  host = b't' ∷ b'.' ∷ b'o' ∷ b'r' ∷ b'g' ∷ [];
  port = b':' ∷ b'8' ∷ b'1' ∷ [];
  path = ann_text ++ b'o' ∷ [];
  pass_key = pass_key_text ++ b'a' ∷ b'b' ∷ [];
}

abbrev udp_url : List ℕ
udp_url = b'u' ∷ b'd' ∷ b'p' ∷ b':' ∷ b'/' ∷ b'/' ∷ b't' ∷ []

matches : match_with_port url ≡ some groups
unfolding all_code
matches = refl

port_found : (parse_tracker_url url).port ≡ b'8' ∷ b'1' ∷ []
unfolding all_code
port_found = refl

udp_refused : (parse_tracker_url udp_url).host ≡ []
unfolding all_code
udp_refused = refl

match_with_port_iff_example : (match_with_port url ≡ some groups) ↔ HasPort url groups
match_with_port_iff_example = match_with_port_iff url groups

match_without_port_iff_example : (match_without_port url ≡ some groups) ↔ HasNoPort url groups
match_without_port_iff_example = match_without_port_iff url groups

parse_tracker_url-ParsesTo_example : ParsesTo url (parse_tracker_url url)
parse_tracker_url-ParsesTo_example = parse_tracker_url-ParsesTo url

parse_tracker_url-host_example : ((parse_tracker_url udp_url).host ≡ []) ↔ Unmatched udp_url
parse_tracker_url-host_example = parse_tracker_url-host udp_url
