-- ===== src/Tracker/Effect.antt =====
-- What an announce may change: Tracker::httpRequest and Torrent::connectToPeers of src/torrent.
use ytorrent.Base.{
  ℕ, suc, ◌≡◌, ◌⊎◌, inl, inr, refl, List, [], ◌∷◌, ◌++◌, Option, some, none, not, ◌==◌, if-elim,
  length, take, done, Ensures, Ensures-done, >>=-Ensures,
}
use ytorrent.Client.{Client}
use ytorrent.Torrent.Sizes.{bytes_equal}
use ytorrent.Torrent.Query.{TrackerEvent, completed, started, stopped, none as no_event}
use ytorrent.Torrent.Connect.{connect_to_peers}
use ytorrent.Torrent.Connect.Targets.{GoodTargets, Made, connect_to_peers-GoodTargets}
use ytorrent.Tracker.Response.{
  Answer, refused, answered, Exchange, Decoder, use_answer, read_body, read_rest, read_status,
  read_response, http_request, http_text, skip_header, skip_spaces, read_word, read_signed,
}

-- Only an answered announce that is a plain or the first one may contact anyone.
abbrev pub MayContact : TrackerEvent → Answer → Type 0
MayContact event (refused e) = ⊥
MayContact no_event (answered interval) = Unit
MayContact started (answered interval) = Unit
MayContact completed (answered interval) = ⊥
MayContact stopped (answered interval) = ⊥

abbrev pub Contacts : TrackerEvent → Client → Answer × Client → Type 0
Contacts event c (answer, d) =
    (d ≡ c) ⊎ (MayContact event answer × (peers : List ℕ) × (connect_to_peers peers c ≡ done d))

use_answer-Contacts :
    (event : TrackerEvent) (peers : List ℕ) (interval : ℕ) (c : Client)
    → Ensures (Contacts event c) (use_answer event (peers, interval) c)
unfolding use_answer
use_answer-Contacts no_event peers interval c =
    >>=-Ensures (Contacts no_event c) (connect_to_peers peers c) _ λ d e. inr (tt, peers, e)
use_answer-Contacts started peers interval c =
    >>=-Ensures (Contacts started c) (connect_to_peers peers c) _ λ d e. inr (tt, peers, e)
use_answer-Contacts completed peers interval c = inl refl
use_answer-Contacts stopped peers interval c = inl refl

module _ (decode : Decoder) (event : TrackerEvent) (c : Client) where
  read_body-Contacts :
      (body : Option (List ℕ)) → Ensures (Contacts event c) (read_body decode event body c)
  unfolding read_body
  read_body-Contacts none = inl refl
  read_body-Contacts (some body) =
      >>=-Ensures (Contacts event c) (decode body) _
        λ (peers, interval) e. use_answer-Contacts event peers interval c

  read_rest-Contacts :
      (status : ℕ) (rest : List ℕ) (more : Option (List ℕ))
      → Ensures (Contacts event c) (read_rest decode event (status, rest) more c)
  unfolding read_rest
  read_rest-Contacts status rest none =
      if-elim (Ensures (Contacts event c)) (not (status == 200)) (inl refl) (inl refl)
  read_rest-Contacts status [] (some more) =
      if-elim (Ensures (Contacts event c)) (not (status == 200)) (inl refl) (inl refl)
  read_rest-Contacts status (r ∷ rest) (some more) =
      if-elim (Ensures (Contacts event c)) (not (status == 200)) (inl refl)
        (read_body-Contacts (skip_header (suc (length (r ∷ (rest ++ more)))) (r ∷ (rest ++ more))))

  read_status-Contacts :
      (text : List ℕ) (more : Option (List ℕ))
      → Ensures (Contacts event c) (read_status decode event text more c)
  unfolding read_status
  read_status-Contacts [] more = tt
  read_status-Contacts (r ∷ rest) more =
      read_rest-Contacts (read_signed (r ∷ rest)).0 (read_signed (r ∷ rest)).1 more

  read_response-Contacts :
      (first more : Option (List ℕ))
      → Ensures (Contacts event c) (read_response decode event first more c)
  unfolding read_response
  read_response-Contacts none more = inl refl
  read_response-Contacts (some first) more =
      if-elim (Ensures (Contacts event c))
        (not (bytes_equal (take 5 (read_word (skip_spaces first)).0) http_text)) (inl refl)
        (read_status-Contacts (skip_spaces (read_word (skip_spaces first)).1) more)

  -- A request to a tracker leaves the client alone or gives the answer's peers to connectToPeers.
  pub http_request-Contacts :
      (x : Exchange) → Ensures (Contacts event c) (http_request decode x event c)
  unfolding http_request
  http_request-Contacts x = if-elim (Ensures (Contacts event c)) (not x.resolved) (inl refl) (
      if-elim (Ensures (Contacts event c)) (not x.connected) (inl refl)
        (read_response-Contacts x.first x.more))

Contacts-GoodTargets :
    (event : TrackerEvent) (c d : Client) (answer : Answer)
    → Made c
    → Contacts event c (answer, d)
    → (d ≡ c) ⊎ (MayContact event answer × GoodTargets c d)
Contacts-GoodTargets event c d answer made (inl e) = inl e
Contacts-GoodTargets event c d answer made (inr (may, peers, e)) =
    inr (may, connect_to_peers-GoodTargets peers c d made e)

-- An announce that returns changes nothing in the client, unless it was answered and is a plain or the first one; then it
-- starts connections to addresses that are known, not black-listed and of no active peer, each once.
pub http_request-AnnounceEffect :
    (decode : Decoder) (x : Exchange) (event : TrackerEvent) (c d : Client) (answer : Answer)
    → Made c
    → http_request decode x event c ≡ done (answer, d)
    → (d ≡ c) ⊎ (MayContact event answer × GoodTargets c d)
http_request-AnnounceEffect decode x event c d answer made e =
    Contacts-GoodTargets event c d answer made (
      Ensures-done (Contacts event c) (http_request decode x event c) e
        (http_request-Contacts decode event c x))
