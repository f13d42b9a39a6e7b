-- ===== src/Tracker/Reading.antt =====
-- A well-formed answer, as Tracker::httpRequest of src/torrent/tracker.cpp reads it.
use ytorrent.Base.{
  ℕ, zero, suc, ◌<◌, ◌≡◌, refl, ap, ◌∙◌, List, [], ◌∷◌, ◌++◌, some, Bool, true, false, not, ◌&&◌,
  ◌==◌, if◌then◌else◌, take, length, length-append, All, arith, done,
}
use ytorrent.Client.{Client}
use ytorrent.Torrent.Sizes.{bytes_equal}
use ytorrent.Torrent.Query.{TrackerEvent}
use ytorrent.Tracker.Response.{
  is_space, skip_spaces, read_word, read_number, read_signed, add_front, get_line, next_line,
  skip_header, Decoder, read_body, read_rest, read_status, read_response, http_request, http_text,
  refused, bad_version,
}

-- A line that is not empty and holds no line feed.
abbrev pub IsHeaderLine : List ℕ → Type 0
IsHeaderLine line = (0 < length line) × All (λ c. (c == b'\n') ≡ false) line

-- Lines that end in a carriage return and a line feed, an empty one, and the body.
unfoldable pub lay_out : List (List ℕ) → List ℕ → List ℕ
lay_out [] body = b'\r' ∷ b'\n' ∷ body
lay_out (line ∷ lines) body = line ++ (b'\r' ∷ b'\n' ∷ lay_out lines body)

get_line-cons :
    (c : ℕ) (text : List ℕ) {line rest : List ℕ}
    → (c == b'\n') ≡ false
    → get_line text ≡ some (line, rest)
    → get_line (c ∷ text) ≡ some (c ∷ line, rest)
unfolding get_line add_front
get_line-cons c [] e h = absurd (cc h)
get_line-cons c (d ∷ text) {line} {rest} e h = rw (e, h) refl

get_line-end : (rest : List ℕ) → get_line (b'\r' ∷ b'\n' ∷ rest) ≡ some (b'\r' ∷ [], rest)
unfolding get_line add_front
get_line-end [] = refl
get_line-end (c ∷ rest) = refl

get_line-line :
    (line rest : List ℕ)
    → All (λ c. (c == b'\n') ≡ false) line
    → get_line (line ++ (b'\r' ∷ b'\n' ∷ rest)) ≡ some (line ++ b'\r' ∷ [], rest)
get_line-line [] rest h = get_line-end rest
get_line-line (c ∷ line) rest (h, hs) = get_line-cons c _ h (get_line-line line rest hs)

and_false : (b : Bool) → (b && false) ≡ false
and_false true = refl
and_false false = refl

not_last_line :
    (line : List ℕ) → 0 < length line → bytes_equal (line ++ b'\r' ∷ []) (b'\r' ∷ []) ≡ false
unfolding bytes_equal
not_last_line [] h = absurd (omega arith)
not_last_line (c ∷ []) h = and_false (c == b'\r')
not_last_line (c ∷ d ∷ line) h = and_false (c == b'\r')

skip_header-lay_out :
    (lines : List (List ℕ)) (body : List ℕ) (fuel : ℕ)
    → length lines < fuel
    → All IsHeaderLine lines
    → skip_header fuel (lay_out lines body) ≡ some body
unfolding skip_header next_line lay_out bytes_equal
skip_header-lay_out lines body zero h lines_ok = absurd (omega arith)
skip_header-lay_out [] body (suc fuel) h lines_ok =
    ap (next_line (skip_header fuel)) (get_line-end body)
skip_header-lay_out (line ∷ lines) body (suc fuel) h ((some_bytes, plain), lines_ok) =
    ap (next_line (skip_header fuel)) (get_line-line line (lay_out lines body) plain)
    ∙ ap (λ b. if b then some (lay_out lines body) else skip_header fuel (lay_out lines body))
        (not_last_line line some_bytes)
    ∙ skip_header-lay_out lines body fuel (omega arith) lines_ok

length-lay_out :
    (lines : List (List ℕ)) (body : List ℕ) → length lines < length (lay_out lines body)
unfolding lay_out
length-lay_out [] body = omega arith
length-lay_out (line ∷ lines) body =
    omega
      (arith, length-append line (b'\r' ∷ b'\n' ∷ lay_out lines body), length-lay_out lines body)

read_word-append :
    (word rest : List ℕ)
    → All (λ c. is_space c ≡ false) word
    → read_word (word ++ (b' ' ∷ rest)) ≡ (word, b' ' ∷ rest)
unfolding read_word
read_word-append [] rest h = refl
read_word-append (c ∷ word) rest (h, hs) = rw (h, read_word-append word rest hs) refl

-- "200 ".
abbrev pub status_text : List ℕ → List ℕ
status_text rest = b'2' ∷ b'0' ∷ b'0' ∷ b' ' ∷ rest

-- "HTTP/", the rest of the version, and the status.
abbrev pub status_line : List ℕ → List ℕ → List ℕ
status_line version rest = http_text ++ (version ++ (b' ' ∷ status_text rest))

read_version :
    (version rest : List ℕ)
    → All (λ c. is_space c ≡ false) version
    → read_word (skip_spaces (status_line version rest))
      ≡ (http_text ++ version, b' ' ∷ status_text rest)
unfolding skip_spaces
read_version version rest h =
    read_word-append (http_text ++ version) (status_text rest)
      (refl, (refl, (refl, (refl, (refl, h)))))

-- An answer of status 200 with any header lines is read up to its body, however it arrives in two parts,
-- and the body is what is decoded.
pub http_request-lay_out :
    (decode : Decoder) (event : TrackerEvent) (c : Client) (version reason : List ℕ)
    (headers : List (List ℕ)) (body rest more : List ℕ)
    → All (λ x. is_space x ≡ false) version
    → All (λ x. (x == b'\n') ≡ false) reason
    → All IsHeaderLine headers
    → (b' ' ∷ rest) ++ more ≡ lay_out ((b' ' ∷ reason) ∷ headers) body
    → http_request decode
        (record {
          resolved = true;
          connected = true;
          first = some (status_line version rest);
          more = some more;
        })
        event
        c
      ≡ read_body decode event (some body) c
unfolding http_request read_response read_status read_rest skip_spaces read_signed read_number
    bytes_equal
http_request-lay_out decode event c version reason headers body rest more v r hs whole =
    ap
      (λ (w : List ℕ × List ℕ).
        if not (bytes_equal (take 5 w.0) http_text)
        then done (refused bad_version, c)
        else read_status decode event (skip_spaces w.1) (some more) c)
      (read_version version rest v)
    ∙ ap (λ o. read_body decode event o c)
        (ap (λ t. skip_header (suc (length t)) t) whole
          ∙ skip_header-lay_out ((b' ' ∷ reason) ∷ headers) body
              (suc (length (lay_out ((b' ' ∷ reason) ∷ headers) body)))
              (omega (arith, length-lay_out ((b' ' ∷ reason) ∷ headers) body))
              ((omega arith, (refl, r)), hs))
