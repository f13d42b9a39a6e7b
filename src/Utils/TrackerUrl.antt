-- ===== src/Utils/TrackerUrl.antt =====
-- src/utils/utils.cpp: parseTrackerUrl. In both of its regular expressions the next character decides each
-- step, so a match reads the groups from left to right, and no choice is ever taken back.
pub mod Spans
pub mod Grammar
pub mod Result
use ytorrent.Base.{
  ℕ, List, [], ◌∷◌, ◌++◌, Option, some, none, Bool, true, false, not, ◌==◌, ◌||◌, ◌&&◌, leb,
  if◌then◌else◌, map, drop,
}

-- The parts of an announce URL, src/utils/utils.hpp.
pub record UrlMeta : Type 0 where
  pub protocol : List ℕ
  pub host : List ℕ
  pub port : List ℕ
  pub announce_path : List ℕ
  pub pass_key_param : List ℕ

-- The groups of a match. The expression without a port has no group for it.
pub record Groups : Type 0 where
  pub protocol : List ℕ
  pub host : List ℕ
  pub port : List ℕ
  pub path : List ℕ
  pub pass_key : List ℕ

infixl 5 ◌>>=◌
abbrev pub ◌>>=◌ : {A B : Type 0} → Option A → (A → Option B) → Option B
none >>= f = none
some a >>= f = f a

-- The classes [^:/], \d, [^?] and the dot.
abbrev pub is_host_char : ℕ → Bool
is_host_char c = not (c == b':' || c == b'/')

abbrev pub is_digit : ℕ → Bool
is_digit c = leb b'0' c && leb c b'9'

abbrev pub is_path_char : ℕ → Bool
is_path_char c = not (c == b'?')

abbrev pub is_any_char : ℕ → Bool
is_any_char c = not (c == b'\n' || c == b'\r')

abbrev pub http_text : List ℕ
http_text = b'h' ∷ b't' ∷ b't' ∷ b'p' ∷ b':' ∷ b'/' ∷ b'/' ∷ []

abbrev pub https_text : List ℕ
https_text = b'h' ∷ b't' ∷ b't' ∷ b'p' ∷ b's' ∷ b':' ∷ b'/' ∷ b'/' ∷ []

abbrev pub ann_text : List ℕ
ann_text = b'/' ∷ b'a' ∷ b'n' ∷ b'n' ∷ []

abbrev pub pass_key_text : List ℕ
pass_key_text = b'?' ∷ b'p' ∷ b'a' ∷ b's' ∷ b's' ∷ b'k' ∷ b'e' ∷ b'y' ∷ b'=' ∷ []

-- The text behind a word that it begins with.
unfoldable pub strip : List ℕ → List ℕ → Option (List ℕ)
strip [] text = some text
strip (w ∷ word) [] = none
strip (w ∷ word) (c ∷ text) = if w == c then strip word text else none

-- A class with a star: as many characters as there are, and the rest.
unfoldable pub span : (ℕ → Bool) → List ℕ → List ℕ × List ℕ
span p [] = ([], [])
span p (c ∷ text) = if p c then (c ∷ (span p text).0, (span p text).1) else ([], c ∷ text)

unfoldable pub non_empty : List ℕ × List ℕ → Option (List ℕ × List ℕ)
non_empty ([], rest) = none
non_empty (c ∷ front, rest) = some (c ∷ front, rest)

-- A class with a plus.
abbrev pub span_some : (ℕ → Bool) → List ℕ → Option (List ℕ × List ℕ)
span_some p text = non_empty (span p text)

unfoldable pub or_else : {A : Type 0} → Option A → Option A → Option A
or_else none other = other
or_else (some a) other = some a

-- (https?://)
unfoldable pub match_protocol : List ℕ → Option (List ℕ × List ℕ)
match_protocol url =
    or_else (do rest ← strip https_text url; some (https_text, rest))
      (do rest ← strip http_text url; some (http_text, rest))

unfoldable pub all_any : List ℕ → List ℕ → Option (List ℕ)
all_any [] whole = some whole
all_any (c ∷ key) whole = if is_any_char c then all_any key whole else none

-- (\?passkey=.*)? up to the end of the URL.
unfoldable pub match_pass_key : List ℕ → Option (List ℕ)
match_pass_key [] = some []
match_pass_key (c ∷ text) = do key ← strip pass_key_text (c ∷ text); all_any key (c ∷ text)

-- (/ann[^\?]*)(\?passkey=.*)? up to the end of the URL.
unfoldable pub match_path : List ℕ → Option (List ℕ × List ℕ)
match_path text = do
  rest ← strip ann_text text
  pass_key ← match_pass_key (span is_path_char rest).1
  some (ann_text ++ (span is_path_char rest).0, pass_key)

-- The expression with a port.
unfoldable pub match_with_port : List ℕ → Option Groups
match_with_port url = do
  (protocol, r1) ← match_protocol url
  (host, r2) ← span_some is_host_char r1
  r3 ← strip (b':' ∷ []) r2
  (digits, r4) ← span_some is_digit r3
  (path, pass_key) ← match_path r4
  some (record {
    protocol = protocol;
    host = host;
    port = b':' ∷ digits;
    path = path;
    pass_key = pass_key;
  })

-- The expression without one.
unfoldable pub match_without_port : List ℕ → Option Groups
match_without_port url = do
  (protocol, r1) ← match_protocol url
  (host, r2) ← span_some is_host_char r1
  (path, pass_key) ← match_path r2
  some (record { protocol = protocol; host = host; port = []; path = path; pass_key = pass_key })

-- `std::replace(..., '?', '&')`.
unfoldable pub question_to_and : List ℕ → List ℕ
question_to_and = map (λ c. if c == b'?' then b'&' else c)

abbrev pub no_url : UrlMeta
no_url = record { protocol = []; host = []; port = []; announce_path = []; pass_key_param = [] }

unfoldable pub url_meta_of : Groups → List ℕ → UrlMeta
url_meta_of m port = record {
  protocol = m.protocol;
  host = m.host;
  port = port;
  announce_path = m.path;
  pass_key_param = question_to_and m.pass_key;
}

unfoldable pub choose_groups : Option Groups → Option Groups → UrlMeta
choose_groups (some m) other = url_meta_of m (drop 1 m.port)
choose_groups none (some m) = url_meta_of m (b'8' ∷ b'0' ∷ [])
choose_groups none none = no_url

unfoldable pub parse_tracker_url : List ℕ → UrlMeta
parse_tracker_url url = choose_groups (match_with_port url) (match_without_port url)
