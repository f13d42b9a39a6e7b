-- ===== src/Peer/Messages/Guards.antt =====
-- When the case REQUEST of Peer::handleMessage, src/torrent/peer.cpp, may send anything.
use ytorrent.Base.{
  ℕ, ◌≤◌, ◌≡◌, ◌⊎◌, inl, inr, refl, ap, ◌∙◌, Bool, true, false, not, ◌==◌, ltb, if◌then◌else◌,
  if-cases, if-elim, arith, Outcome, done, ◌>>=◌, Ensures, Ensures-done, >>=-Ensures,
}
use ytorrent.Net.Link.{Connection, read, close, set_error_callback, is_connected, message_length}
use ytorrent.Net.Incoming.{IncomingMessage, get_size}
use ytorrent.Client.{
  Client, Peer, Platform, PeerError, modify_peer, on_conn, test_state, peer_interested, am_choking,
  max_block_request_size, bad_request, request_without_interest, request_while_choked,
  request_too_large,
}
use ytorrent.Torrent.Sizes.{piece_done}
use ytorrent.Torrent.Swarm.{handle_error, disconnect, disconnect_peer, remove_peer}
use ytorrent.Torrent.Serve.{handle_block_request}
use ytorrent.Peer.Messages.{keep_reading, extract_three, serve, on_request}

-- No peer was sent anything between the two states.
abbrev pub SentNothing : Client → Client → Type 0
SentNothing c d = (q : ℕ) → (d.peers q).conn.written ≡ (c.peers q).conn.written

same_index : (p q : ℕ) → (p == q) ≡ true → p ≡ q
same_index p q e = ground arith

modify_peer-SentNothing :
    (p : ℕ) (f : Peer → Peer) (c : Client)
    → ((x : Peer) → (f x).conn.written ≡ x.conn.written)
    → SentNothing c (modify_peer p f c)
modify_peer-SentNothing p f c h q =
    if-cases (λ (x : Peer). x.conn.written ≡ (c.peers q).conn.written) (p == q)
      (λ e. h (c.peers p) ∙ ap (λ n. (c.peers n).conn.written) (same_index p q e)) (λ e. refl)

close-written : (k : Connection) → (close k).written ≡ k.written
unfolding close
close-written k = if-elim (λ (x : Connection). x.written ≡ k.written) (is_connected k) refl refl

pub handle_error-SentNothing :
    (p : ℕ) (e : PeerError) (c : Client) → SentNothing c (handle_error p e c)
unfolding handle_error disconnect disconnect_peer remove_peer set_error_callback
handle_error-SentNothing p e c =
    modify_peer-SentNothing p disconnect_peer (remove_peer p e c) (λ x. close-written x.conn)

read-written : (n : ℕ) (k : Connection) → (read n message_length k).written ≡ k.written
unfolding read
read-written n k = if-elim (λ (x : Connection). x.written ≡ k.written) (is_connected k) refl refl

pub keep_reading-SentNothing : (p : ℕ) (c : Client) → SentNothing c (keep_reading p c)
unfolding keep_reading
keep_reading-SentNothing p c =
    modify_peer-SentNothing p (on_conn (read 4 message_length)) c (λ x. read-written 4 x.conn)

-- The request that the message holds may be answered.
abbrev pub MayAnswer : ℕ → IncomingMessage → Client → Type 0
MayAnswer p in_msg c =
    (get_size in_msg ≡ 12)
    × (test_state peer_interested (c.peers p) ≡ true)
    × (test_state am_choking (c.peers p) ≡ false)
    × ((index : ℕ) × (begin : ℕ) × (size : ℕ) × (extract_three in_msg ≡ done (index, begin, size))
        × (size ≤ max_block_request_size)
        × (piece_done c.torrent index ≡ done true))

abbrev Guarded : ℕ → IncomingMessage → Client → Client → Type 0
Guarded p in_msg c d = SentNothing c d ⊎ MayAnswer p in_msg c

not_flipped : (b : Bool) → not b ≡ false → b ≡ true
not_flipped true e = refl
not_flipped false e = absurd (cc e)

is_twelve : (n : ℕ) → not (n == 12) ≡ false → n ≡ 12
is_twelve n e = ground arith

after_lookup :
    (p : ℕ) (in_msg : IncomingMessage) (c : Client) (answer : Outcome Client) (have_it : Bool)
    → (have_it ≡ true → MayAnswer p in_msg c)
    → Ensures
        (Guarded p in_msg c)
        ((if have_it then answer else done c) >>= (λ d. done (keep_reading p d)))
after_lookup p in_msg c answer true h =
    >>=-Ensures (Guarded p in_msg c) answer (λ d. done (keep_reading p d)) (λ d e. inr (h refl))
after_lookup p in_msg c answer false h = inl (keep_reading-SentNothing p c)

not_larger : (a b : ℕ) → ltb a b ≡ false → b ≤ a
not_larger a b e = ground arith

on_request-Guarded :
    (platform : Platform) (p : ℕ) (in_msg : IncomingMessage) (c : Client)
    → Ensures (Guarded p in_msg c) (on_request platform p in_msg c)
unfolding on_request serve
on_request-Guarded platform p in_msg c =
    let P = Ensures (Guarded p in_msg c) in
    if-cases P (not (get_size in_msg == 12)) (λ _. inl (handle_error-SentNothing p bad_request c))
      (λ sized.
        if-cases P (not (test_state peer_interested (c.peers p)))
          (λ _. inl (handle_error-SentNothing p request_without_interest c))
          (λ asked.
            if-cases P (test_state am_choking (c.peers p))
              (λ _. inl (handle_error-SentNothing p request_while_choked c))
              (λ unchoked.
                >>=-Ensures (Guarded p in_msg c) (extract_three in_msg) _
                  λ (index, begin, size) numbers.
                    if-cases P (ltb max_block_request_size size)
                      (λ _. inl (handle_error-SentNothing p (request_too_large size) c))
                      (λ small.
                        >>=-Ensures (Guarded p in_msg c) (piece_done c.torrent index) _
                          λ have_it known.
                            after_lookup p in_msg c
                              (handle_block_request platform p index begin size c) have_it
                              (λ yes_it_has. (
                                is_twelve (get_size in_msg) sized,
                                not_flipped (test_state peer_interested (c.peers p)) asked,
                                unchoked,
                                (
                                  index,
                                  begin,
                                  size,
                                  numbers,
                                  not_larger max_block_request_size size small,
                                  known ∙ ap done yes_it_has,
                                ),
                              ))))))

-- A request that is handled sends something only if it has 12 bytes, the peer is interested and is not
-- choked, the block is 16 KiB at most, and the piece is there.
pub on_request-MayAnswer :
    (platform : Platform) (p : ℕ) (in_msg : IncomingMessage) (c d : Client)
    → on_request platform p in_msg c ≡ done d
    → SentNothing c d ⊎ MayAnswer p in_msg c
on_request-MayAnswer platform p in_msg c d e =
    Ensures-done (Guarded p in_msg c) (on_request platform p in_msg c) e
      (on_request-Guarded platform p in_msg c)
