-- ===== src/Utils/TrackerUrl/Grammar.antt =====
-- The regular expressions of parseTrackerUrl, src/utils/utils.cpp, as descriptions of texts, and the
-- matcher against them.
use ytorrent.Base.{
  ℕ, ◌≡◌, ◌↔◌, ◌⊎◌, inl, inr, refl, ap, ap₂, sym, ◌∙◌, subst, List, [], ◌∷◌, ◌++◌, Option, some,
  none, Bool, false, Bool-cases,
}
use mathlib.Core.List.{append_assoc}
use ytorrent.Utils.TrackerUrl.{
  Groups, is_host_char, is_digit, is_path_char, is_any_char, http_text, https_text, ann_text,
  pass_key_text, strip, span, span_some, or_else, match_protocol, all_any, match_pass_key,
  match_path, match_with_port, match_without_port,
}
use ytorrent.Utils.TrackerUrl.Spans.{
  AllOf, SomeOf, >>=-eq-some, Stops, some_injective, span-append, span_some-append, span-parts,
  span_some-parts, strip-append, strip-eq-some,
}

-- https?://
abbrev pub IsProtocol : List ℕ → Type 0
IsProtocol text = (text ≡ https_text) ⊎ (text ≡ http_text)

-- :\d+
abbrev pub IsPort : List ℕ → Type 0
IsPort text = (digits : List ℕ) × (text ≡ b':' ∷ digits) × SomeOf is_digit digits

-- /ann[^\?]*
abbrev pub IsPath : List ℕ → Type 0
IsPath text = (tail : List ℕ) × (text ≡ ann_text ++ tail) × AllOf is_path_char tail

-- (\?passkey=.*)?
abbrev pub IsPassKey : List ℕ → Type 0
IsPassKey text =
    (text ≡ []) ⊎ ((key : List ℕ) × (text ≡ pass_key_text ++ key) × AllOf is_any_char key)

-- The URL is the groups one after the other, each of its own form.
abbrev pub HasPort : List ℕ → Groups → Type 0
HasPort url m =
    IsProtocol m.protocol
    × SomeOf is_host_char m.host
    × IsPort m.port
    × IsPath m.path
    × IsPassKey m.pass_key
    × (url ≡ m.protocol ++ (m.host ++ (m.port ++ (m.path ++ m.pass_key))))

abbrev pub HasNoPort : List ℕ → Groups → Type 0
HasNoPort url m =
    IsProtocol m.protocol
    × SomeOf is_host_char m.host
    × (m.port ≡ [])
    × IsPath m.path
    × IsPassKey m.pass_key
    × (url ≡ m.protocol ++ (m.host ++ (m.path ++ m.pass_key)))

match_protocol-append :
    (protocol rest : List ℕ)
    → IsProtocol protocol
    → match_protocol (protocol ++ rest) ≡ some (protocol, rest)
unfolding match_protocol or_else strip
match_protocol-append protocol rest (inl e) = rw e
match_protocol-append protocol rest (inr e) = rw e

or_else-eq-some :
    {A : Type 0} (o other : Option A) {a : A}
    → or_else o other ≡ some a
    → (o ≡ some a) ⊎ (other ≡ some a)
unfolding or_else
or_else-eq-some none other e = inr e
or_else-eq-some (some b) other e = inl e

pair_parts :
    {a b c d : List ℕ}
    → ◌≡◌ {A = Option (List ℕ × List ℕ)} (some (a, b)) (some (c, d))
    → (a ≡ c) × (b ≡ d)
pair_parts e = (cc, cc)

match_protocol-parts :
    (url protocol rest : List ℕ)
    → match_protocol url ≡ some (protocol, rest)
    → (url ≡ protocol ++ rest) × IsProtocol protocol
unfolding match_protocol
match_protocol-parts url protocol rest e = elim (or_else-eq-some _ _ e) [
  | inl h ↦
      let (r, s, f) = >>=-eq-some (strip https_text url) (λ r. some (https_text, r)) h in
      let (front_eq, rest_eq) = pair_parts f in
      (strip-eq-some https_text url r s ∙ ap₂ (λ a b. a ++ b) front_eq rest_eq, inl (sym front_eq))
  | inr h ↦
      let (r, s, f) = >>=-eq-some (strip http_text url) (λ r. some (http_text, r)) h in
      let (front_eq, rest_eq) = pair_parts f in
      (strip-eq-some http_text url r s ∙ ap₂ (λ a b. a ++ b) front_eq rest_eq, inr (sym front_eq))
]

all_any_complete : (key whole : List ℕ) → AllOf is_any_char key → all_any key whole ≡ some whole
unfolding all_any
all_any_complete [] whole h = refl
all_any_complete (c ∷ key) whole (h, hs) = rw h (all_any_complete key whole hs)

all_any-parts :
    (key whole out : List ℕ) → all_any key whole ≡ some out → AllOf is_any_char key × (whole ≡ out)
unfolding all_any
all_any-parts [] whole out e = (tt, cc)
all_any-parts (c ∷ key) whole out e = elim (Bool-cases (is_any_char c)) [
  | inl h ↦ let (hs, same) = all_any-parts key whole out (rw h at e) in ((h, hs), same)
  | inr h ↦ absurd (cc (rw h at e))
]

match_pass_key_complete : (text : List ℕ) → IsPassKey text → match_pass_key text ≡ some text
unfolding match_pass_key
match_pass_key_complete text (inl e) = rw e
match_pass_key_complete text (inr (key, e, any)) =
    rw (e, strip-append pass_key_text key) (all_any_complete key (pass_key_text ++ key) any)

match_pass_key-parts :
    (text out : List ℕ) → match_pass_key text ≡ some out → (text ≡ out) × IsPassKey out
unfolding match_pass_key
match_pass_key-parts [] out e = (cc, inl (cc))
match_pass_key-parts (c ∷ text) out e =
    let (key, s, a) =
      >>=-eq-some (strip pass_key_text (c ∷ text)) (λ key. all_any key (c ∷ text)) e in
    let (any, same) = all_any-parts key (c ∷ text) out a in
    (same, inr (key, sym same ∙ strip-eq-some pass_key_text (c ∷ text) key s, any))

path-Stops : (text : List ℕ) → IsPassKey text → Stops is_path_char text
path-Stops text (inl e) = subst (Stops is_path_char) (sym e) tt
path-Stops text (inr (key, e, any)) = subst (Stops is_path_char) (sym e) refl

match_path_complete :
    (path pass_key : List ℕ)
    → IsPath path
    → IsPassKey pass_key
    → match_path (path ++ pass_key) ≡ some (path, pass_key)
unfolding match_path
match_path_complete path pass_key (tail, e, all) key = rw (
  e,
  append_assoc,
  strip-append ann_text (tail ++ pass_key),
  span-append is_path_char tail pass_key all (path-Stops pass_key key),
  match_pass_key_complete pass_key key,
)

match_path-parts :
    (text path pass_key : List ℕ)
    → match_path text ≡ some (path, pass_key)
    → (text ≡ path ++ pass_key) × IsPath path × IsPassKey pass_key
unfolding match_path
match_path-parts text path pass_key e =
    let (rest, s, e1) = >>=-eq-some (strip ann_text text) _ e in
    let (key, k, f) = >>=-eq-some (match_pass_key (span is_path_char rest).1) _ e1 in
    let (path_eq, key_eq) = pair_parts f in
    let (whole, all) = span-parts is_path_char rest in
    let (same, form) = match_pass_key-parts (span is_path_char rest).1 key k in
    (
      strip-eq-some ann_text text rest s
          ∙ ap (λ t. ann_text ++ t)
              (whole ∙ ap (λ t. (span is_path_char rest).0 ++ t) (same ∙ key_eq))
          ∙ ap (λ t. t ++ pass_key) path_eq,
      ((span is_path_char rest).0, sym path_eq, all),
      subst IsPassKey key_eq form,
    )

ann-Stops :
    (p : ℕ → Bool) (path rest : List ℕ) → p b'/' ≡ false → IsPath path → Stops p (path ++ rest)
ann-Stops p path rest h (tail, e, all) = subst (λ t. Stops p (t ++ rest)) (sym e) h

port-Stops : (port rest : List ℕ) → IsPort port → Stops is_host_char (port ++ rest)
port-Stops port rest (digits, e, all) = subst (λ t. Stops is_host_char (t ++ rest)) (sym e) refl

strip_colon :
    (port rest digits : List ℕ)
    → port ≡ b':' ∷ digits
    → strip (b':' ∷ []) (port ++ rest) ≡ some (digits ++ rest)
unfolding strip
strip_colon port rest digits e = rw e

pub match_with_port_complete :
    (url : List ℕ) (m : Groups) → HasPort url m → match_with_port url ≡ some m
unfolding match_with_port
match_with_port_complete url m (proto, host, (digits, port_eq, port), path, key, whole) =
    let after_path = m.path ++ m.pass_key in
    let after_port = m.port ++ after_path in
    rw
      (
        whole,
        match_protocol-append m.protocol (m.host ++ after_port) proto,
        span_some-append is_host_char m.host after_port host
            (port-Stops m.port after_path (digits, port_eq, port)),
        strip_colon m.port after_path digits port_eq,
        span_some-append is_digit digits after_path port
            (ann-Stops is_digit m.path m.pass_key refl path),
        match_path_complete m.path m.pass_key path key,
      )
      (ap
        (λ t. some (record {
          protocol = m.protocol;
          host = m.host;
          port = t;
          path = m.path;
          pass_key = m.pass_key;
        }))
        (sym port_eq))

pub match_without_port_complete :
    (url : List ℕ) (m : Groups) → HasNoPort url m → match_without_port url ≡ some m
unfolding match_without_port
match_without_port_complete url m (proto, host, port_eq, path, key, whole) =
    let after_path = m.path ++ m.pass_key in
    rw
      (
        whole,
        match_protocol-append m.protocol (m.host ++ after_path) proto,
        span_some-append is_host_char m.host after_path host
            (ann-Stops is_host_char m.path m.pass_key refl path),
        match_path_complete m.path m.pass_key path key,
      )
      (ap
        (λ t. some (record {
          protocol = m.protocol;
          host = m.host;
          port = t;
          path = m.path;
          pass_key = m.pass_key;
        }))
        (sym port_eq))

pub match_with_port_sound :
    (url : List ℕ) (m : Groups) → match_with_port url ≡ some m → HasPort url m
unfolding match_with_port
match_with_port_sound url m e =
    let ((protocol, r1), p1, e1) = >>=-eq-some (match_protocol url) _ e in
    let ((host, r2), p2, e2) = >>=-eq-some (span_some is_host_char r1) _ e1 in
    let (r3, p3, e3) = >>=-eq-some (strip (b':' ∷ []) r2) _ e2 in
    let ((digits, r4), p4, e4) = >>=-eq-some (span_some is_digit r3) _ e3 in
    let ((path, key), p5, e5) = >>=-eq-some (match_path r4) _ e4 in
    let (q1, proto) = match_protocol-parts url protocol r1 p1 in
    let (q2, hosts) = span_some-parts is_host_char r1 host r2 p2 in
    let (q4, all) = span_some-parts is_digit r3 digits r4 p4 in
    let (q5, path_form, key_form) = match_path-parts r4 path key p5 in
    let groups : Groups = record {
      protocol = protocol;
      host = host;
      port = b':' ∷ digits;
      path = path;
      pass_key = key;
    } in
    let same : groups ≡ m = some_injective e5 in
    subst (HasPort url) same (
      proto,
      hosts,
      (digits, refl, all),
      path_form,
      key_form,
      q1
          ∙ ap (λ t. protocol ++ t)
              (q2
                ∙ ap (λ t. host ++ t)
                    (strip-eq-some (b':' ∷ []) r2 r3 p3
                      ∙ ap (λ t. b':' ∷ t) (q4 ∙ ap (λ t. digits ++ t) q5))),
    )

pub match_without_port_sound :
    (url : List ℕ) (m : Groups) → match_without_port url ≡ some m → HasNoPort url m
unfolding match_without_port
match_without_port_sound url m e =
    let ((protocol, r1), p1, e1) = >>=-eq-some (match_protocol url) _ e in
    let ((host, r2), p2, e2) = >>=-eq-some (span_some is_host_char r1) _ e1 in
    let ((path, key), p5, e5) = >>=-eq-some (match_path r2) _ e2 in
    let (q1, proto) = match_protocol-parts url protocol r1 p1 in
    let (q2, hosts) = span_some-parts is_host_char r1 host r2 p2 in
    let (q5, path_form, key_form) = match_path-parts r2 path key p5 in
    let groups : Groups = record {
      protocol = protocol;
      host = host;
      port = [];
      path = path;
      pass_key = key;
    } in
    let same : groups ≡ m = some_injective e5 in
    subst (HasNoPort url) same (
      proto,
      hosts,
      refl,
      path_form,
      key_form,
      q1 ∙ ap (λ t. protocol ++ t) (q2 ∙ ap (λ t. host ++ t) q5),
    )

-- A URL matches the expression with a port, with those groups, exactly if it is the groups one after the
-- other, each of its own form; so the groups are determined by the URL.
pub match_with_port_iff :
    (url : List ℕ) (m : Groups) → (match_with_port url ≡ some m) ↔ HasPort url m
match_with_port_iff url m = (match_with_port_sound url m, match_with_port_complete url m)

-- The same for the expression without a port.
pub match_without_port_iff :
    (url : List ℕ) (m : Groups) → (match_without_port url ≡ some m) ↔ HasNoPort url m
match_without_port_iff url m = (match_without_port_sound url m, match_without_port_complete url m)
