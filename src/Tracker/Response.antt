-- ===== src/Tracker/Response.antt =====
-- src/torrent/tracker.cpp: what Tracker::httpRequest makes of the tracker's answer.
pub mod Headers
use Prim.Native.Nat.{zero, suc}
use ytorrent.Base.{
  ℕ, ◌+◌, ◌-◌, ◌*◌, ◌==◌, ◌||◌, ◌&&◌, leb, not, Bool, List, [], ◌∷◌, ◌++◌, Option, some, none,
  if◌then◌else◌, length, take, Outcome, done, undefined, ◌>>=◌,
}
use ytorrent.Client.{Client}
use ytorrent.Torrent.Query.{TrackerEvent, none as no_event, started, completed, stopped}
use ytorrent.Torrent.Sizes.{bytes_equal}
use ytorrent.Torrent.Connect.{connect_to_peers}

-- isspace in the "C" locale.
abbrev pub is_space : ℕ → Bool
is_space c = c == b' ' || (leb 9 c && leb c 13)

unfoldable pub skip_spaces : List ℕ → List ℕ
skip_spaces [] = []
skip_spaces (c ∷ cs) = if is_space c then skip_spaces cs else c ∷ cs

-- The characters up to the next space, and the rest.
unfoldable pub read_word : List ℕ → List ℕ × List ℕ
read_word [] = ([], [])
read_word (c ∷ cs) = if is_space c then ([], c ∷ cs) else (c ∷ (read_word cs).0, (read_word cs).1)

abbrev pub is_digit : ℕ → Bool
is_digit c = leb b'0' c && leb c b'9'

-- The number of the digits that follow, and the rest. A text with no digit gives 0.
unfoldable pub read_number : ℕ → List ℕ → ℕ × List ℕ
read_number n [] = (n, [])
read_number n (c ∷ cs) = if is_digit c then read_number (n * 10 + (c - b'0')) cs else (n, c ∷ cs)

-- A plus sign is passed over; a minus sign gives 0 here, since only 200 counts.
unfoldable pub read_signed : List ℕ → ℕ × List ℕ
read_signed [] = (0, [])
read_signed (c ∷ cs) = if c == b'+' then read_number 0 cs else read_number 0 (c ∷ cs)

unfoldable pub add_front : ℕ → Option (List ℕ × List ℕ) → Option (List ℕ × List ℕ)
add_front c none = none
add_front c (some (line, rest)) = some (c ∷ line, rest)

-- getline: a line without its end, and the rest. At the end of the text there is none.
unfoldable pub get_line : List ℕ → Option (List ℕ × List ℕ)
get_line [] = none
get_line (c ∷ []) = if c == b'\n' then some ([], []) else some (c ∷ [], [])
get_line (c ∷ d ∷ cs) = if c == b'\n' then some ([], d ∷ cs) else add_front c (get_line (d ∷ cs))

unfoldable pub next_line : (List ℕ → Option (List ℕ)) → Option (List ℕ × List ℕ) → Option (List ℕ)
next_line go none = none
next_line go (some (line, rest)) = if bytes_equal line (b'\r' ∷ []) then some rest else go rest

-- `while (getline(rbuf, header) && header != "\r");`, and the text behind it. Each line is shorter than
-- the text before it, so a fuel above the text's length is enough.
unfoldable pub skip_header : ℕ → List ℕ → Option (List ℕ)
skip_header zero text = none
skip_header (suc fuel) text = next_line (skip_header fuel) (get_line text)

pub data TrackerError : Type 0 where
  unresolved unconnected unreadable bad_version : TrackerError
  bad_status : ℕ → TrackerError
  no_body : TrackerError

-- What httpRequest returns: false after handleTrackerError, or true with the time to the next request.
pub data Answer : Type 0 where
  refused : TrackerError → Answer
  answered : ℕ → Answer

-- The network's part of an exchange: `first` is what the first read_until leaves in the buffer, `more`
-- what the second one appends; `none` is an exception.
pub record Exchange : Type 0 where
  pub resolved : Bool
  pub connected : Bool
  pub first : Option (List ℕ)
  pub more : Option (List ℕ)

-- What is done with a decoded answer: the text of the peers, and the interval.
unfoldable pub use_answer : TrackerEvent → List ℕ × ℕ → Client → Outcome (Answer × Client)
use_answer no_event (peers, interval) c = do
  d ← connect_to_peers peers c
  done (answered interval, d)
use_answer started (peers, interval) c = do
  d ← connect_to_peers peers c
  done (answered interval, d)
use_answer completed (peers, interval) c = done (answered interval, c)
use_answer stopped (peers, interval) c = done (answered interval, c)

-- A library's decoder of the body, which may throw, or give what must not be used.
abbrev pub Decoder : Type 0
Decoder = List ℕ → Outcome (List ℕ × ℕ)

unfoldable pub read_body :
    Decoder → TrackerEvent → Option (List ℕ) → Client → Outcome (Answer × Client)
read_body decode event none c = done (refused no_body, c)
read_body decode event (some body) c = do reply ← decode body; use_answer event reply c

-- From the status on. A number at the end of the buffer leaves the stream at its end, and getline fails.
unfoldable pub read_rest :
    Decoder → TrackerEvent → ℕ × List ℕ → Option (List ℕ) → Client → Outcome (Answer × Client)
read_rest decode event (status, rest) none c =
    if not (status == 200)
    then done (refused (bad_status status), c)
    else done (refused unreadable, c)
read_rest decode event (status, []) (some more) c =
    if not (status == 200) then done (refused (bad_status status), c) else done (refused no_body, c)
read_rest decode event (status, r ∷ rest) (some more) c =
    if not (status == 200)
    then done (refused (bad_status status), c)
    else read_body decode event
        (skip_header (suc (length (r ∷ (rest ++ more)))) (r ∷ (rest ++ more))) c

-- Where nothing but spaces follows the version, the status is read uninitialised.
unfoldable pub read_status :
    Decoder → TrackerEvent → List ℕ → Option (List ℕ) → Client → Outcome (Answer × Client)
read_status decode event [] more c = undefined
read_status decode event (r ∷ rest) more c = read_rest decode event (read_signed (r ∷ rest)) more c

-- "HTTP/".
abbrev pub http_text : List ℕ
http_text = b'H' ∷ b'T' ∷ b'T' ∷ b'P' ∷ b'/' ∷ []

unfoldable pub read_response :
    Decoder → TrackerEvent → Option (List ℕ) → Option (List ℕ) → Client → Outcome (Answer × Client)
read_response decode event none more c = done (refused unreadable, c)
read_response decode event (some first) more c =
    let (version, rest) = read_word (skip_spaces first) in
    if not (bytes_equal (take 5 version) http_text)
    then done (refused bad_version, c)
    else read_status decode event (skip_spaces rest) more c

unfoldable pub http_request : Decoder → Exchange → TrackerEvent → Client → Outcome (Answer × Client)
http_request decode x event c =
    if not x.resolved
    then done (refused unresolved, c)
    else if not x.connected
    then done (refused unconnected, c)
    else read_response decode event x.first x.more c
