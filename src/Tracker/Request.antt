-- ===== src/Tracker/Request.antt =====
-- src/torrent/tracker.cpp: the text that Tracker::httpRequest sends.
use ytorrent.Base.{ℕ, List, [], ◌∷◌, ◌++◌, take, drop}
use ytorrent.Utils.Text.{url_encode, to_string}
use ytorrent.Utils.TrackerUrl.{UrlMeta}
use ytorrent.Client.{Torrent}
use ytorrent.Torrent.Query.{TrackerEvent, TrackerQuery, none, completed, started, stopped}

abbrev pub completed_text : List ℕ
completed_text =
    b'e' ∷ b'v' ∷ b'e' ∷ b'n' ∷ b't' ∷ b'=' ∷ b'c' ∷ b'o' ∷ b'm' ∷ b'p' ∷ b'l' ∷ b'e' ∷ b't' ∷ b'e'
    ∷ b'd' ∷ b'&' ∷ []

abbrev pub stopped_text : List ℕ
stopped_text =
    b'e' ∷ b'v' ∷ b'e' ∷ b'n' ∷ b't' ∷ b'=' ∷ b's' ∷ b't' ∷ b'o' ∷ b'p' ∷ b'p' ∷ b'e' ∷ b'd' ∷ b'&'
    ∷ []

abbrev pub started_text : List ℕ
started_text =
    b'e' ∷ b'v' ∷ b'e' ∷ b'n' ∷ b't' ∷ b'=' ∷ b's' ∷ b't' ∷ b'a' ∷ b'r' ∷ b't' ∷ b'e' ∷ b'd' ∷ b'&'
    ∷ []

abbrev pub get_text : List ℕ
get_text = b'G' ∷ b'E' ∷ b'T' ∷ b' ' ∷ []

abbrev pub info_hash_text : List ℕ
info_hash_text = b'i' ∷ b'n' ∷ b'f' ∷ b'o' ∷ b'_' ∷ b'h' ∷ b'a' ∷ b's' ∷ b'h' ∷ b'=' ∷ []

abbrev pub peer_id_text : List ℕ
peer_id_text = b'&' ∷ b'p' ∷ b'e' ∷ b'e' ∷ b'r' ∷ b'_' ∷ b'i' ∷ b'd' ∷ b'=' ∷ []

abbrev pub port_text : List ℕ
port_text = b'&' ∷ b'p' ∷ b'o' ∷ b'r' ∷ b't' ∷ b'=' ∷ []

abbrev pub uploaded_text : List ℕ
uploaded_text = b'&' ∷ b'u' ∷ b'p' ∷ b'l' ∷ b'o' ∷ b'a' ∷ b'd' ∷ b'e' ∷ b'd' ∷ b'=' ∷ []

abbrev pub downloaded_text : List ℕ
downloaded_text =
    b'&' ∷ b'd' ∷ b'o' ∷ b'w' ∷ b'n' ∷ b'l' ∷ b'o' ∷ b'a' ∷ b'd' ∷ b'e' ∷ b'd' ∷ b'=' ∷ []

abbrev pub left_text : List ℕ
left_text = b'&' ∷ b'l' ∷ b'e' ∷ b'f' ∷ b't' ∷ b'=' ∷ []

abbrev pub compact_text : List ℕ
compact_text = b'&' ∷ b'c' ∷ b'o' ∷ b'm' ∷ b'p' ∷ b'a' ∷ b'c' ∷ b't' ∷ b'=' ∷ b'1' ∷ []

abbrev pub version_text : List ℕ
version_text = b' ' ∷ b'H' ∷ b'T' ∷ b'T' ∷ b'P' ∷ b'/' ∷ b'1' ∷ b'.' ∷ b'0' ∷ b'\r' ∷ b'\n' ∷ []

abbrev pub host_text : List ℕ
host_text = b'H' ∷ b'o' ∷ b's' ∷ b't' ∷ b':' ∷ b' ' ∷ []

abbrev pub last_headers : List ℕ
last_headers =
    b'\r' ∷ b'\n' ∷ b'U' ∷ b's' ∷ b'e' ∷ b'r' ∷ b'-' ∷ b'A' ∷ b'g' ∷ b'e' ∷ b'n' ∷ b't' ∷ b':'
    ∷ b' ' ∷ b'Y' ∷ b't' ∷ b'o' ∷ b'R' ∷ b'R' ∷ b'e' ∷ b'n' ∷ b'T' ∷ b'\r' ∷ b'\n' ∷ b'C' ∷ b'o'
    ∷ b'n' ∷ b'n' ∷ b'e' ∷ b'c' ∷ b't' ∷ b'i' ∷ b'o' ∷ b'n' ∷ b':' ∷ b' ' ∷ b'c' ∷ b'l' ∷ b'o'
    ∷ b's' ∷ b'e' ∷ b'\r' ∷ b'\n' ∷ b'\r' ∷ b'\n' ∷ []

unfoldable pub event_text : TrackerEvent → List ℕ
event_text none = []
event_text completed = completed_text
event_text stopped = stopped_text
event_text started = started_text

-- `handshake[28]` to `handshake[47]`.
abbrev pub info_hash : Torrent → List ℕ
info_hash t = take 20 (drop 28 t.handshake)

-- The parameters of the query, after the question mark.
unfoldable pub query_text : Torrent → ℕ → UrlMeta → TrackerQuery → List ℕ
query_text t my_port url_meta r =
    event_text r.event
    ++ (info_hash_text
        ++ (url_encode (info_hash t)
            ++ (peer_id_text
                ++ (url_encode (take 20 t.own_id)
                    ++ (port_text
                        ++ (to_string my_port
                            ++ (uploaded_text
                                ++ (to_string r.uploaded
                                    ++ (downloaded_text
                                        ++ (to_string r.downloaded
                                            ++ (left_text
                                                ++ (to_string r.remaining
                                                    ++ (compact_text
                                                        ++ url_encode
                                                            url_meta.pass_key_param)))))))))))))

unfoldable pub request_text : Torrent → ℕ → UrlMeta → TrackerQuery → List ℕ
request_text t my_port url_meta r =
    get_text
    ++ (url_meta.announce_path
        ++ (b'?'
            ∷ (query_text t my_port url_meta r
                ++ (version_text ++ (host_text ++ (url_meta.host ++ last_headers))))))
