-- ===== src/Peer/HasPiece.antt =====
-- Peer::hasPiece of src/torrent/peer.hpp: the search finds exactly what stands in the list.
use ytorrent.Base.{
  ℕ, zero, suc, ◌≡◌, refl, List, [], ◌∷◌, some, Bool, true, false, ◌==◌, Occurs, Bool-cases, inl,
  inr, ap, same_of_test, test_of_same,
}
use ytorrent.Client.{has_piece}

pub has_piece→Occurs : (xs : List ℕ) (a : ℕ) → has_piece xs a ≡ true → Occurs a xs
unfolding has_piece
has_piece→Occurs [] a e = absurd (cc e)
has_piece→Occurs (x ∷ xs) a e = elim (Bool-cases (x == a)) [
  | inl same ↦ (0, ap some (same_of_test x a same))
  | inr other ↦ let (i, f) = has_piece→Occurs xs a (simp other at e) in (suc i, f)
]

some_injective : {x a : ℕ} → some x ≡ some a → x ≡ a
some_injective e = cc

pub Occurs→has_piece : (xs : List ℕ) (a : ℕ) → Occurs a xs → has_piece xs a ≡ true
unfolding has_piece
Occurs→has_piece [] a (i, e) = absurd (cc e)
Occurs→has_piece (x ∷ xs) a (zero, e) = rw (test_of_same x a (some_injective e))
Occurs→has_piece (x ∷ xs) a (suc i, e) = elim (Bool-cases (x == a)) [
  | inl same ↦ rw same refl
  | inr other ↦ rw other (Occurs→has_piece xs a (i, e))
]

pub no_piece→not_Occurs : (xs : List ℕ) (a : ℕ) → has_piece xs a ≡ false → ¬ Occurs a xs
no_piece→not_Occurs xs a e o = true_not_false (Occurs→has_piece xs a o) e
  where
    true_not_false : {b : Bool} → b ≡ true → b ≡ false → ⊥
    true_not_false f g = cc
