-- ===== src/Utils/TrackerUrl/Result.antt =====
-- What parseTrackerUrl of src/utils/utils.cpp returns, and when it fails.
use ytorrent.Base.{
  ℕ, ◌≡◌, ◌≢◌, refl, subst, ◌↔◌, ◌⊎◌, inl, inr, ap, sym, ◌∙◌, List, [], ◌∷◌, Option, some, none,
  Option-cases, drop, arith,
}
use ytorrent.Utils.TrackerUrl.{
  UrlMeta, Groups, is_host_char, match_with_port, match_without_port, no_url, url_meta_of,
  question_to_and, choose_groups, parse_tracker_url,
}
use ytorrent.Utils.TrackerUrl.Spans.{SomeOf}
use ytorrent.Utils.TrackerUrl.Grammar.{
  HasPort, HasNoPort, IsPort, match_with_port_complete, match_without_port_complete,
  match_with_port_sound, match_without_port_sound,
}

-- No groups make the URL match.
abbrev pub Unmatched : List ℕ → Type 0
Unmatched url = (m : Groups) → (¬ HasPort url m) × (¬ HasNoPort url m)

-- The second text is the first with an ampersand in place of each question mark.
abbrev pub Replaced : List ℕ → List ℕ → Type 0
Replaced [] [] = Unit
Replaced [] (_ ∷ _) = ⊥
Replaced (_ ∷ _) [] = ⊥
Replaced (c ∷ cs) (d ∷ ds) = (((c ≡ b'?') × (d ≡ b'&')) ⊎ ((c ≢ b'?') × (d ≡ c))) × Replaced cs ds

-- Each field but the port is the group of its name, the pass key with its question marks replaced.
abbrev pub HasGroups : Groups → UrlMeta → Type 0
HasGroups m r =
    (r.protocol ≡ m.protocol)
    × (r.host ≡ m.host)
    × (r.announce_path ≡ m.path)
    × Replaced m.pass_key r.pass_key_param

-- Each field is empty.
abbrev pub IsBlank : UrlMeta → Type 0
IsBlank r =
    (r.protocol ≡ [])
    × (r.host ≡ [])
    × (r.port ≡ [])
    × (r.announce_path ≡ [])
    × (r.pass_key_param ≡ [])

-- What parseTrackerUrl gives for a URL of each kind. The group of the port begins with the colon.
abbrev pub ParsesTo : List ℕ → UrlMeta → Type 0
ParsesTo url r =
    ((m : Groups) × HasPort url m × HasGroups m r × (m.port ≡ b':' ∷ r.port))
    ⊎ ((m : Groups) × HasNoPort url m × HasGroups m r × (r.port ≡ b'8' ∷ b'0' ∷ []))
    ⊎ (Unmatched url × IsBlank r)

question_to_and-Replaced : (text : List ℕ) → Replaced text (question_to_and text)
unfolding question_to_and
question_to_and-Replaced [] = tt
question_to_and-Replaced (c ∷ cs) = (ground arith, question_to_and-Replaced cs)

url_meta_of-HasGroups : (m : Groups) (port : List ℕ) → HasGroups m (url_meta_of m port)
unfolding url_meta_of
url_meta_of-HasGroups m port = (refl, refl, refl, question_to_and-Replaced m.pass_key)

-- The port without the colon.
port-IsPort : (m : Groups) → IsPort m.port → m.port ≡ b':' ∷ (url_meta_of m (drop 1 m.port)).port
unfolding url_meta_of
port-IsPort m (digits, e, some_digits) = e ∙ ap (λ t. b':' ∷ drop 1 t) (sym e)

none_some : {o : Option Groups} {m : Groups} → o ≡ none → o ≡ some m → ⊥
none_some e f = cc

chosen_first :
    {o : Option Groups} (other : Option Groups) {m : Groups}
    → o ≡ some m
    → choose_groups o other ≡ url_meta_of m (drop 1 m.port)
unfolding choose_groups
chosen_first other e = rw e

chosen_second :
    {o other : Option Groups} {m : Groups}
    → o ≡ none
    → other ≡ some m
    → choose_groups o other ≡ url_meta_of m (b'8' ∷ b'0' ∷ [])
unfolding choose_groups
chosen_second e f = rw (e, f)

chosen_none : {o other : Option Groups} → o ≡ none → other ≡ none → choose_groups o other ≡ no_url
unfolding choose_groups
chosen_none e f = rw (e, f)

first-ParsesTo :
    (url : List ℕ) (r : UrlMeta) (m : Groups)
    → HasPort url m
    → r ≡ url_meta_of m (drop 1 m.port)
    → ParsesTo url r
first-ParsesTo url r m h e =
    let fields =
      subst (λ q. HasGroups m q × (m.port ≡ b':' ∷ q.port)) (sym e)
        (url_meta_of-HasGroups m (drop 1 m.port), port-IsPort m h.2) in
    inl (m, h, fields.0, fields.1)

second-ParsesTo :
    (url : List ℕ) (r : UrlMeta) (m : Groups)
    → HasNoPort url m
    → r ≡ url_meta_of m (b'8' ∷ b'0' ∷ [])
    → ParsesTo url r
unfolding url_meta_of
second-ParsesTo url r m h e =
    let fields =
      subst (λ q. HasGroups m q × (q.port ≡ b'8' ∷ b'0' ∷ [])) (sym e)
        (url_meta_of-HasGroups m (b'8' ∷ b'0' ∷ []), refl) in
    inr (inl (m, h, fields.0, fields.1))

no_url-IsBlank : (r : UrlMeta) → r ≡ no_url → IsBlank r
no_url-IsBlank r e = subst IsBlank (sym e) (refl, refl, refl, refl, refl)

-- The protocol, the host and the path are the groups of a match with a port, and the port is the group of
-- that name without the colon; else they are those of a match without a port, and the port is 80; else all
-- is empty. The parameter of the pass key is its group with an ampersand for each question mark.
pub parse_tracker_url-ParsesTo : (url : List ℕ) → ParsesTo url (parse_tracker_url url)
unfolding parse_tracker_url
parse_tracker_url-ParsesTo url = elim (Option-cases (match_with_port url)) [
  | inr (m, e) ↦
      first-ParsesTo url (parse_tracker_url url) m (match_with_port_sound url m e)
        (chosen_first (match_without_port url) e)
  | inl no_port ↦ elim (Option-cases (match_without_port url)) [
    | inr (m, e) ↦
        second-ParsesTo url (parse_tracker_url url) m (match_without_port_sound url m e)
          (chosen_second no_port e)
    | inl neither ↦ inr (
        inr (
          (λ m. (
            (λ h. none_some no_port (match_with_port_complete url m h)),
            (λ h. none_some neither (match_without_port_complete url m h)),
          )),
          no_url-IsBlank (parse_tracker_url url) (chosen_none no_port neither),
        ))
  ]
]

no_empty_host : (host : List ℕ) → SomeOf is_host_char host → host ≡ [] → ⊥
no_empty_host [] h e = omega arith
no_empty_host (c ∷ host) h e = cc

-- The host is empty, which validateTracker takes as a failure, exactly if the URL matches neither expression.
pub parse_tracker_url-host : (url : List ℕ) → ((parse_tracker_url url).host ≡ []) ↔ Unmatched url
parse_tracker_url-host url = elim (parse_tracker_url-ParsesTo url) [
  | inl (m, h, g, e) ↦
      ((λ empty. absurd (no_empty_host m.host h.1 (sym g.1 ∙ empty))), (λ u. absurd ((u m).0 h)))
  | inr rest ↦ elim rest [
    | inl (m, h, g, e) ↦
        ((λ empty. absurd (no_empty_host m.host h.1 (sym g.1 ∙ empty))), (λ u. absurd ((u m).1 h)))
    | inr (u, blank) ↦ ((λ _. u), (λ _. blank.1))
  ]
]
