-- ===== src/Peer/Wire/Haves.antt =====
-- sendHave and the HAVE case of handleMessage, src/torrent/peer.cpp.
use ytorrent.Base.{
  ℕ, ◌^◌, ◌<◌, ◌≡◌, refl, ap, ◌∙◌, List, [], ◌∷◌, ◌++◌, ◌⊎◌, inl, inr, Occurs, Bool-cases, done,
}
use ytorrent.Client.{Client, Peer, Platform, modify_peer, set_peer, has_piece}
use ytorrent.Peer.Send.{have_message}
use ytorrent.Peer.Messages.{keep_reading, add_index}
use ytorrent.Peer.HasPiece.{has_piece→Occurs, no_piece→not_Occurs}
use ytorrent.Peer.Wire.{receive, have_reaches_add_index}

-- The index was there before and the list is the same, or it was not and is put at the end.
abbrev pub Noted : ℕ → List ℕ → List ℕ → Type 0
Noted index before after =
    (Occurs index before × (after ≡ before))
    ⊎ ((¬ Occurs index before) × (after ≡ before ++ index ∷ []))

-- The peer with that list of pieces.
abbrev pub with_pieces : List ℕ → Peer → Peer
with_pieces has x = record x { has_piece_indexes = has }

add_index-Noted :
    (index : ℕ) (x : Peer)
    → (has : List ℕ) × Noted index x.has_piece_indexes has × (add_index index x ≡ with_pieces has x)
unfolding add_index
add_index-Noted index x = elim (Bool-cases (has_piece x.has_piece_indexes index)) [
  | inl e ↦
      (x.has_piece_indexes, inl (has_piece→Occurs x.has_piece_indexes index e, refl), rw e refl)
  | inr e ↦ (
    x.has_piece_indexes ++ index ∷ [],
    inr (no_piece→not_Occurs x.has_piece_indexes index e, refl),
    rw e refl,
  )
]

-- The bytes of sendHave, received, put the index at the end of the list of the pieces that the sender has,
-- unless it stands there already; nothing else changes, and the next message is read.
pub receive-have_message :
    (platform : Platform) (p : ℕ) (c : Client) (index : ℕ)
    → index < 2 ^ 32
    → (has : List ℕ) × Noted index (c.peers p).has_piece_indexes has
      × (receive platform p (have_message index).data_buffer c
          ≡ done (keep_reading p (modify_peer p (with_pieces has) c)))
receive-have_message platform p c index h =
    let (has, noted, e) = add_index-Noted index (c.peers p) in
    (
      has,
      noted,
      have_reaches_add_index platform p c index h
          ∙ ap (λ x. done (keep_reading p (set_peer p x c))) e,
    )
