-- ===== src/Soundness/Lookup.antt =====
-- Elements of lists that were cut, padded, joined and overwritten.
use ytorrent.Base.{
  ℕ, zero, suc, ◌+◌, ◌-◌, ◌≤◌, ◌<◌, ◌≡◌, refl, ap, sym, ◌∙◌, List, [], ◌∷◌, ◌++◌, some, none,
  length, drop, get_elem?, arith,
}
use ytorrent.Torrent.Disk.{take_padded, overwrite}

module _ {ℓ} {A : Type ℓ} where
  pub get_elem?-append_left :
      (xs ys : List A) (i : ℕ) → i < length xs → get_elem? (xs ++ ys) i ≡ get_elem? xs i
  get_elem?-append_left [] ys i h = elim h [ ]
  get_elem?-append_left (x ∷ xs) ys zero h = refl
  get_elem?-append_left (x ∷ xs) ys (suc i) h = get_elem?-append_left xs ys i (omega arith)

  pub get_elem?-append_right :
      (xs ys : List A) (i : ℕ) → get_elem? (xs ++ ys) (length xs + i) ≡ get_elem? ys i
  get_elem?-append_right [] ys i = ap (get_elem? ys) (omega arith)
  get_elem?-append_right (x ∷ xs) ys i =
      let e : suc (length xs) + i ≡ suc (length xs + i) = omega arith in
      ap (get_elem? (x ∷ (xs ++ ys))) e ∙ get_elem?-append_right xs ys i

  pub get_elem?-drop :
      (n : ℕ) (xs : List A) (i : ℕ) → get_elem? (drop n xs) i ≡ get_elem? xs (n + i)
  get_elem?-drop zero xs i = ap (get_elem? xs) (omega arith)
  get_elem?-drop (suc n) [] i = refl
  get_elem?-drop (suc n) (x ∷ xs) i =
      let e : suc (n + i) ≡ suc n + i = omega arith in
      get_elem?-drop n xs i ∙ ap (get_elem? (x ∷ xs)) e

  pub get_elem?-beyond : (xs : List A) (i : ℕ) → length xs ≤ i → get_elem? xs i ≡ none
  get_elem?-beyond [] i h = refl
  get_elem?-beyond (x ∷ xs) zero h = absurd (omega arith)
  get_elem?-beyond (x ∷ xs) (suc i) h = get_elem?-beyond xs i (omega arith)

  pub get_elem?-below : (xs : List A) (i : ℕ) {x : A} → get_elem? xs i ≡ some x → i < length xs
  get_elem?-below [] i e = cc
  get_elem?-below (x ∷ xs) zero e = omega arith
  get_elem?-below (x ∷ xs) (suc i) e = omega (arith, get_elem?-below xs i e)

  pub get_elem?-within : (xs : List A) (i : ℕ) → i < length xs → (x : A) × (get_elem? xs i ≡ some x)
  get_elem?-within [] i h = absurd (omega arith)
  get_elem?-within (x ∷ xs) zero h = (x, refl)
  get_elem?-within (x ∷ xs) (suc i) h = get_elem?-within xs i (omega arith)

length-take_padded : (n : ℕ) (xs : List ℕ) → length (take_padded n xs) ≡ n
unfolding take_padded
length-take_padded zero xs = refl
length-take_padded (suc n) [] = ap suc (length-take_padded n [])
length-take_padded (suc n) (x ∷ xs) = ap suc (length-take_padded n xs)

get_elem?-take_padded :
    (n : ℕ) (xs : List ℕ) (i : ℕ)
    → i < n
    → i < length xs
    → get_elem? (take_padded n xs) i ≡ get_elem? xs i
unfolding take_padded
get_elem?-take_padded zero xs i h k = absurd (omega arith)
get_elem?-take_padded (suc n) [] i h k = absurd (omega arith)
get_elem?-take_padded (suc n) (x ∷ xs) zero h k = refl
get_elem?-take_padded (suc n) (x ∷ xs) (suc i) h k =
    get_elem?-take_padded n xs i (omega arith) (omega arith)

module _ (position : ℕ) (bytes old : List ℕ) where
  pub overwrite_before :
      (i : ℕ)
      → i < position
      → i < length old
      → get_elem? (overwrite position bytes old) i ≡ get_elem? old i
  unfolding overwrite
  overwrite_before i h k =
      get_elem?-append_left (take_padded position old) _ i (rw (length-take_padded position old) h)
      ∙ get_elem?-take_padded position old i h k

  overwrite_from :
      (i : ℕ)
      → get_elem? (overwrite position bytes old) (position + i)
        ≡ get_elem? (bytes ++ drop (position + length bytes) old) i
  unfolding overwrite
  overwrite_from i = rw length-take_padded at (
      get_elem?-append_right (take_padded position old)
        (bytes ++ drop (position + length bytes) old) i)

  pub overwrite_inside :
      (i : ℕ)
      → i < length bytes
      → get_elem? (overwrite position bytes old) (position + i) ≡ get_elem? bytes i
  overwrite_inside i h = overwrite_from i ∙ get_elem?-append_left bytes _ i h

  pub overwrite_after :
      (i : ℕ)
      → position + length bytes ≤ i
      → get_elem? (overwrite position bytes old) i ≡ get_elem? old i
  overwrite_after i h =
      let k = i - (position + length bytes) in
      let inner : position + (length bytes + k) ≡ i = omega arith in
      let outer : position + length bytes + k ≡ i = omega arith in
      ap (get_elem? (overwrite position bytes old)) (sym inner)
      ∙ overwrite_from (length bytes + k)
      ∙ get_elem?-append_right bytes (drop (position + length bytes) old) k
      ∙ get_elem?-drop (position + length bytes) old k
      ∙ ap (get_elem? old) outer
