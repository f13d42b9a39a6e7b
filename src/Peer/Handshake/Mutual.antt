-- ===== src/Peer/Handshake/Mutual.antt =====
-- Two clients of src/torrent/peer.cpp that shake hands with what Torrent::parseFile of
-- src/torrent/torrent.cpp builds.
use ytorrent.Base.{
  ℕ, zero, suc, ◌≡◌, ◌↔◌, refl, ap, ap₂, sym, ◌∙◌, List, [], ◌∷◌, ◌++◌, Bool, true, false, not,
  length, take, drop, arith,
}
use ytorrent.Torrent.Sizes.{bytes_equal}
use ytorrent.Torrent.Parse.{build_handshake}
use ytorrent.Soundness.Store.{bytes_equal→eq, bytes_equal_self}
use ytorrent.Peer.Handshake.{is_mismatch, first_is}

take-take : (n : ℕ) (xs ys : List ℕ) → length xs ≡ n → take n (take n xs ++ ys) ≡ xs
take-take zero [] ys e = refl
take-take zero (x ∷ xs) ys e = absurd (omega arith)
take-take (suc n) [] ys e = absurd (omega arith)
take-take (suc n) (x ∷ xs) ys e = ap (λ t. x ∷ t) (take-take n xs ys (omega arith))

hash_of_handshake :
    (hash : List ℕ) → length hash ≡ 20 → take 20 (drop 28 (build_handshake hash)) ≡ hash
unfolding build_handshake
hash_of_handshake hash e = take-take 20 hash _ e

is_mismatch-build_handshake :
    (mine theirs : List ℕ)
    → length mine ≡ 20
    → length theirs ≡ 20
    → is_mismatch (build_handshake mine) (build_handshake theirs) 68 ≡ not (bytes_equal theirs mine)
unfolding is_mismatch first_is build_handshake
is_mismatch-build_handshake mine theirs m t =
    ap₂ (λ a b. not (bytes_equal a b)) (hash_of_handshake theirs t) (hash_of_handshake mine m)

not-not : (b : Bool) → not b ≡ false → b ≡ true
not-not true e = refl
not-not false e = absurd (cc e)

-- Two handshakes of this client are accepted by one another exactly if they name the same info hash, of
-- 20 bytes.
pub is_mismatch-same_hash :
    (mine theirs : List ℕ)
    → length mine ≡ 20
    → length theirs ≡ 20
    → (is_mismatch (build_handshake mine) (build_handshake theirs) 68 ≡ false) ↔ (mine ≡ theirs)
is_mismatch-same_hash mine theirs m t = (
  (λ e. sym (
      bytes_equal→eq theirs mine (
        not-not (bytes_equal theirs mine)
          (sym (is_mismatch-build_handshake mine theirs m t) ∙ e)))),
  (λ e.
      is_mismatch-build_handshake mine theirs m t
      ∙ ap (λ xs. not (bytes_equal theirs xs)) e
      ∙ ap not (bytes_equal_self theirs)),
)
