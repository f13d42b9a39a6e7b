-- ===== src/Utils/TrackerUrl/Spans.antt =====
-- Texts that are taken apart by words and by classes of characters, as in src/utils/utils.cpp.
use ytorrent.Base.{
  ℕ, ◌<◌, ◌≡◌, refl, ap, ap₂, ◌∙◌, subst, List, [], ◌∷◌, ◌++◌, Option, some, none, Bool, true,
  false, if-cases, length, All, arith,
}
use ytorrent.Utils.TrackerUrl.{Groups, ◌>>=◌, strip, span, non_empty, span_some}

abbrev pub AllOf : (ℕ → Bool) → List ℕ → Type 0
AllOf p text = All (λ c. p c ≡ true) text

-- A class with a plus.
abbrev pub SomeOf : (ℕ → Bool) → List ℕ → Type 0
SomeOf p text = (0 < length text) × AllOf p text

pub >>=-eq-some :
    {A B : Type 0} (o : Option A) (f : A → Option B) {b : B}
    → (o >>= f) ≡ some b
    → (a : A) × (o ≡ some a) × (f a ≡ some b)
>>=-eq-some none f e = cc
>>=-eq-some (some a) f e = (a, refl, e)

pub some_injective : {a b : Groups} → some a ≡ some b → a ≡ b
some_injective e = cc

-- The text ends, or goes on with a character outside the class.
abbrev pub Stops : (ℕ → Bool) → List ℕ → Type 0
Stops p [] = Unit
Stops p (c ∷ _) = p c ≡ false

pub span-append :
    (p : ℕ → Bool) (xs rest : List ℕ) → AllOf p xs → Stops p rest → span p (xs ++ rest) ≡ (xs, rest)
unfolding span
span-append p [] [] h s = refl
span-append p [] (c ∷ rest) h s = rw s
span-append p (x ∷ xs) rest (h, hs) s = rw (h, span-append p xs rest hs s)

pub span_some-append :
    (p : ℕ → Bool) (xs rest : List ℕ)
    → SomeOf p xs
    → Stops p rest
    → span_some p (xs ++ rest) ≡ some (xs, rest)
unfolding non_empty
span_some-append p [] rest (h, hs) s = absurd (omega arith)
span_some-append p (x ∷ xs) rest (h, hs) s = ap non_empty (span-append p (x ∷ xs) rest hs s)

pub span-parts :
    (p : ℕ → Bool) (xs : List ℕ) → (xs ≡ (span p xs).0 ++ (span p xs).1) × AllOf p (span p xs).0
unfolding span
span-parts p [] = (refl, tt)
span-parts p (x ∷ xs) =
    if-cases (λ (r : List ℕ × List ℕ). (x ∷ xs ≡ r.0 ++ r.1) × AllOf p r.0) (p x)
      (λ e. (ap (λ t. x ∷ t) (span-parts p xs).0, (e, (span-parts p xs).1))) (λ e. (refl, tt))

pub non_empty-eq-some :
    (r : List ℕ × List ℕ) {front rest : List ℕ}
    → non_empty r ≡ some (front, rest)
    → (r.0 ≡ front) × (r.1 ≡ rest) × (0 < length r.0)
unfolding non_empty
non_empty-eq-some ([], rest') e = absurd (cc e)
non_empty-eq-some (c ∷ front', rest') e = (cc, cc, omega arith)

pub span_some-parts :
    (p : ℕ → Bool) (text front rest : List ℕ)
    → span_some p text ≡ some (front, rest)
    → (text ≡ front ++ rest) × SomeOf p front
span_some-parts p text front rest e =
    let (front_eq, rest_eq, more) = non_empty-eq-some (span p text) e in
    let (whole, all) = span-parts p text in
    (whole ∙ ap₂ (λ a b. a ++ b) front_eq rest_eq, subst (SomeOf p) front_eq (more, all))

pub strip-append : (word rest : List ℕ) → strip word (word ++ rest) ≡ some rest
unfolding strip
strip-append [] rest = refl
strip-append (w ∷ word) rest = ground (arith, strip-append word rest)

pub strip-eq-some : (word text rest : List ℕ) → strip word text ≡ some rest → text ≡ word ++ rest
unfolding strip
strip-eq-some [] text rest e = cc
strip-eq-some (w ∷ word) [] rest e = cc
strip-eq-some (w ∷ word) (c ∷ text) rest e = ground (arith, strip-eq-some word text rest)
