-- ===== src/Tracker/Announce.antt =====
-- src/torrent/tracker.hpp and tracker.cpp: the tracker object; src/torrent/torrent.cpp: validateTracker. The
-- clock is in milliseconds.
use ytorrent.Base.{
  ℕ, ◌+◌, ◌-◌, ◌^◌, ltb, List, [], ◌∷◌, ◌++◌, Option, some, none, Bool, true, false, ◌&&◌, leb,
  if◌then◌else◌, Outcome, done, undefined, ◌>>=◌,
}
use ytorrent.Utils.TrackerUrl.{UrlMeta, parse_tracker_url}
use ytorrent.Net.Acceptor.{Acceptor}
use ytorrent.Client.{Client}
use ytorrent.Torrent.Query.{TrackerEvent, TrackerQuery, build_tracker_query}
use ytorrent.Tracker.Request.{request_text}
use ytorrent.Tracker.Response.{Answer, refused, answered, Exchange, Decoder, http_request}

-- Tracker.
pub record Tracker : Type 0 where
  pub my_port : ℕ
  pub url_meta : UrlMeta
  pub time_to_next_request : ℕ

-- The client with what only the main thread uses: `mainTracker`, `acceptor`, and the requests that were
-- written to a tracker, oldest first.
pub record Program : Type 0 where
  pub client : Client
  pub main_tracker : Option Tracker
  pub acceptor : Option Acceptor
  pub requests : List (List ℕ)

-- Tracker::Tracker.
unfoldable pub new_tracker : ℕ → UrlMeta → Tracker
new_tracker my_port url_meta = record {
  my_port = my_port;
  url_meta = url_meta;
  time_to_next_request = 0;
}

unfoldable pub is_next_request_due : ℕ → Tracker → Bool
is_next_request_due now t = leb t.time_to_next_request now

-- `now() + milliseconds(interval)`. The interval is the bit pattern of an int64_t. A sum before the clock's
-- zero is 0 here, which is as much in the past as it; one past the end of the clock is not cut.
unfoldable pub after_interval : ℕ → ℕ → ℕ
after_interval now interval =
    if ltb interval (2 ^ 63) then now + interval else now - (2 ^ 64 - interval)

-- What the program's part outside the client keeps of an answer.
unfoldable pub keep_answer : ℕ → Tracker → Program → Answer × Client → Bool × Tracker × Program
keep_answer now t p (refused e, c) = (false, t, record p { client = c })
keep_answer now t p (answered interval, c) =
    (true, record t { time_to_next_request = after_interval now interval }, record p { client = c })

-- A request is written if the host was found and answered. A write that throws ends the process, and is
-- no part of the model.
unfoldable pub write_request : Exchange → Tracker → TrackerQuery → Program → Program
write_request x t q p =
    if x.resolved && x.connected
    then record p {
      requests = p.requests ++ request_text p.client.torrent t.my_port t.url_meta q ∷ [];
    }
    else p

-- Tracker::query.
unfoldable pub query :
    Decoder → Exchange → ℕ → TrackerQuery → Tracker → Program → Outcome (Bool × Tracker × Program)
query decode x now q t p = do
  result ← http_request decode x q.event p.client
  done (keep_answer now t (write_request x t q p) result)

unfoldable pub is_empty : List ℕ → Bool
is_empty [] = true
is_empty (_ ∷ _) = false

-- `mainTracker` is the new tracker if it answered.
unfoldable pub install_tracker : Bool × Tracker × Program → Bool × Program
install_tracker (false, t, p) = (false, p)
install_tracker (true, t, p) = (true, record p { main_tracker = some t })

-- Torrent::validateTracker.
unfoldable pub validate_tracker :
    Decoder → Exchange → ℕ → List ℕ → TrackerQuery → ℕ → Program → Outcome (Bool × Program)
validate_tracker decode x now url q my_port p =
    if is_empty (parse_tracker_url url).host then done (false, p) else do
      r ← query decode x now q (new_tracker my_port (parse_tracker_url url)) p
      done (install_tracker r)

-- `mainTracker->query(buildTrackerQuery(event))`, whose result is not looked at.
unfoldable pub query_main_tracker :
    Decoder → Exchange → ℕ → TrackerEvent → Option Tracker → Program → Outcome Program
query_main_tracker decode x now event none p = undefined
query_main_tracker decode x now event (some t) p = do
  q ← build_tracker_query event p.client.torrent
  (_, t', p') ← query decode x now q t p
  done (record p' { main_tracker = some t' })
