-- ===== src/Tracker/Response/Headers.antt =====
-- The loop over the header lines in Tracker::httpRequest, src/torrent/tracker.cpp, comes to an end.
use ytorrent.Base.{
  ℕ, zero, suc, ◌<◌, ◌≡◌, subst, List, [], ◌∷◌, Option, some, none, true, false, ◌==◌, if-elim,
  if-cases, length, arith, inl, inr, Option-cases,
}
use ytorrent.Torrent.Sizes.{bytes_equal}
use ytorrent.Tracker.Response.{add_front, get_line, next_line, skip_header}

-- The loop as the code has it: a line is read; the loop ends where there is none, or after the blank line,
-- and goes on with the rest otherwise.
pub data Skips : List ℕ → Option (List ℕ) → Type 0 where
  at_end : {text : List ℕ} → get_line text ≡ none → Skips text none
  at_blank :
      {text rest : List ℕ} (line : List ℕ)
      → get_line text ≡ some (line, rest)
      → bytes_equal line (b'\r' ∷ []) ≡ true
      → Skips text (some rest)
  go_on :
      {text rest : List ℕ} {r : Option (List ℕ)} (line : List ℕ)
      → get_line text ≡ some (line, rest)
      → bytes_equal line (b'\r' ∷ []) ≡ false
      → Skips rest r
      → Skips text r

-- A line is at least one character of the text.
abbrev Shorter : ℕ → Option (List ℕ × List ℕ) → Type 0
Shorter n none = Unit
Shorter n (some (line, rest)) = length rest < n

add_front-Shorter :
    (c n : ℕ) (o : Option (List ℕ × List ℕ)) → Shorter n o → Shorter (suc n) (add_front c o)
unfolding add_front
add_front-Shorter c n none h = tt
add_front-Shorter c n (some (line, rest)) h = omega arith

get_line-Shorter : (text : List ℕ) → Shorter (length text) (get_line text)
unfolding get_line
get_line-Shorter [] = tt
get_line-Shorter (c ∷ []) = if-elim (Shorter 1) (c == b'\n') (omega arith) (omega arith)
get_line-Shorter (c ∷ d ∷ cs) =
    if-elim (Shorter (length (c ∷ d ∷ cs))) (c == b'\n') (omega arith)
      (add_front-Shorter c (length (d ∷ cs)) (get_line (d ∷ cs)) (get_line-Shorter (d ∷ cs)))

-- Where the fuel is above the length of the text, the loop has run to its end.
pub skip_header-Skips :
    (fuel : ℕ) (text : List ℕ) → length text < fuel → Skips text (skip_header fuel text)
unfolding skip_header next_line
skip_header-Skips zero text h = absurd (omega arith)
skip_header-Skips (suc fuel) text h = elim (Option-cases (get_line text)) [
  | inl e ↦ rw e (at_end e)
  | inr ((line, rest), e) ↦ rw e (
      if-cases (λ r. Skips text r) (bytes_equal line (b'\r' ∷ [])) (λ blank. at_blank line e blank)
        (λ other. go_on line e other (
          skip_header-Skips fuel rest
            (omega (arith, subst (Shorter (length text)) e (get_line-Shorter text))))))
]
