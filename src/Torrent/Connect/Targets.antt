-- ===== src/Torrent/Connect/Targets.antt =====
-- Which addresses Torrent::connectToPeers of src/torrent/torrent.cpp contacts.
use ytorrent.Base.{
  ℕ, zero, suc, ◌+◌, ◌<◌, ◌≡◌, ◌≢◌, refl, ap, ap₂, sym, ◌∙◌, subst, List, [], ◌∷◌, ◌++◌, Bool, true,
  false, ◌||◌, ◌==◌, if-cases, drop, length, All, arith, done, Ensures, Ensures-done, >>=-Ensures,
  Ensures-map, Ensures-then, ◌⊎◌, inl, inr, ◌/◌,
}
use ytorrent.Utils.Transcoder.{read_as_le32, read_as_be16}
use ytorrent.Net.Link.{get_ip}
use ytorrent.Client.{Client, Peer}
use ytorrent.Torrent.Swarm.{get_raw_ip, is_black_listed, black_list_insert}
use ytorrent.Session.{make_peer}
use ytorrent.Torrent.Connect.{
  is_active, is_skipped, start_peer, connect_to_peer, connect_loop, connect_to_peers,
}

-- Connections that are started one after another, each to an address and a port.
unfoldable pub start_all : List (ℕ × ℕ) → Client → Client
start_all [] c = c
start_all ((ip, port) ∷ rest) c = start_all rest (start_peer ip port c)

-- An address that may be contacted: known, not black-listed, and of no active peer.
abbrev pub IsFresh : Client → ℕ → Type 0
IsFresh c ip =
    (ip ≢ 0)
    × (is_black_listed c.torrent.black_listed ip ≡ false)
    × (is_active c c.torrent.active_peers ip ≡ false)

-- No address stands twice in the list.
abbrev pub Distinct : List (ℕ × ℕ) → Type 0
Distinct [] = Unit
Distinct (t ∷ rest) = All (λ u. t.0 ≢ u.0) rest × Distinct rest

-- The active peers are peers that were made.
abbrev pub Made : Client → Type 0
Made c = All (λ p. p < c.allocated) c.torrent.active_peers

abbrev pub GoodTargets : Client → Client → Type 0
GoodTargets c d =
    (ts : List (ℕ × ℕ)) × (d ≡ start_all ts c) × All (λ t. IsFresh c t.0) ts × Distinct ts

or_false : (a b : Bool) → (a || b) ≡ false → (a ≡ false) × (b ≡ false)
or_false true b e = absurd (cc e)
or_false false b e = (refl, e)

not_equal : (a b : ℕ) → (a == b) ≡ false → a ≢ b
not_equal a b e = λ same. absurd (ground arith)

contrary : {b : Bool} → b ≡ false → b ≡ true → ⊥
contrary e f = cc

IsFresh-not_skipped : (c : Client) (ip : ℕ) → is_skipped c ip ≡ false → IsFresh c ip
unfolding is_skipped
IsFresh-not_skipped c ip e =
    let (known, inactive) =
      or_false (ip == 0 || is_black_listed c.torrent.black_listed ip)
        (is_active c c.torrent.active_peers ip) e in
    let (some_ip, unlisted) =
      or_false (ip == 0) (is_black_listed c.torrent.black_listed ip) known in
    (not_equal ip 0 some_ip, unlisted, inactive)

black_list_insert-false :
    (ip other : ℕ) (xs : List ℕ)
    → is_black_listed (black_list_insert ip xs) other ≡ false
    → (is_black_listed xs other ≡ false) × (ip ≢ other)
unfolding black_list_insert is_black_listed
black_list_insert-false ip other xs =
    if-cases
      (λ (l : List ℕ).
        is_black_listed l other ≡ false → (is_black_listed xs other ≡ false) × (ip ≢ other))
      (is_black_listed xs ip)
      (λ listed e. (e, λ same. absurd (contrary (ap (is_black_listed xs) same ∙ e) listed)))
      (λ _ e.
        let (ne, rest) = or_false (ip == other) (is_black_listed xs other) e in
        (rest, not_equal ip other ne))

not_last : (n p : ℕ) → p < n → (n == p) ≡ true → ⊥
not_last n p h e = ground arith

get_raw_ip-start_peer :
    (ip port p : ℕ) (c : Client)
    → p < c.allocated
    → get_raw_ip (start_peer ip port c) p ≡ get_raw_ip c p
unfolding start_peer get_raw_ip make_peer
get_raw_ip-start_peer ip port p c h =
    let P = λ (x : Peer). get_ip x.conn ≡ get_ip (c.peers p).conn in
    if-cases P (c.allocated == p) (λ e. absurd (not_last c.allocated p h e))
      (λ _. if-cases P (c.allocated == p) (λ e. absurd (not_last c.allocated p h e)) (λ _. refl))

is_active-start_peer :
    (ip port other : ℕ) (c : Client) (ps : List ℕ)
    → All (λ p. p < c.allocated) ps
    → is_active (start_peer ip port c) ps other ≡ is_active c ps other
unfolding is_active
is_active-start_peer ip port other c [] h = refl
is_active-start_peer ip port other c (p ∷ ps) (made, rest) =
    ap₂ (λ a b. (a == other) || b) (get_raw_ip-start_peer ip port p c made)
      (is_active-start_peer ip port other c ps rest)

-- What is fresh after a connection was started was fresh before, and is another address.
IsFresh-start_peer :
    (ip port other : ℕ) (c : Client)
    → Made c
    → IsFresh (start_peer ip port c) other
    → IsFresh c other × (ip ≢ other)
unfolding start_peer make_peer
IsFresh-start_peer ip port other c made (some_ip, unlisted, inactive) =
    let (before, another) = black_list_insert-false ip other c.torrent.black_listed unlisted in
    (
      (
        some_ip,
        before,
        sym (is_active-start_peer ip port other c c.torrent.active_peers made) ∙ inactive,
      ),
      another,
    )

made_later : (n : ℕ) (ps : List ℕ) → All (λ p. p < n) ps → All (λ p. p < n + 1) ps
made_later n [] h = tt
made_later n (p ∷ ps) (h, rest) = (omega arith, made_later n ps rest)

targets_before :
    (ip port : ℕ) (c : Client) (ts : List (ℕ × ℕ))
    → Made c
    → All (λ t. IsFresh (start_peer ip port c) t.0) ts
    → All (λ t. IsFresh c t.0) ts × All (λ t. ip ≢ t.0) ts
targets_before ip port c [] made h = (tt, tt)
targets_before ip port c (t ∷ ts) made (fresh, rest) =
    let (now, another) = IsFresh-start_peer ip port t.0 c made fresh in
    let (now_rest, another_rest) = targets_before ip port c ts made rest in
    ((now, now_rest), (another, another_rest))

-- One round, and the rounds after it.
one_more :
    (ip port : ℕ) (c d : Client)
    → Made c
    → IsFresh c ip
    → GoodTargets (start_peer ip port c) d
    → GoodTargets c d
unfolding start_all
one_more ip port c d made fresh (ts, same, all_fresh, distinct) =
    let (now, another) = targets_before ip port c ts made all_fresh in
    ((ip, port) ∷ ts, same, (fresh, now), (another, distinct))

Made-start_peer : (ip port : ℕ) (c : Client) → Made c → Made (start_peer ip port c)
unfolding start_peer make_peer
Made-start_peer ip port c made = made_later c.allocated c.torrent.active_peers made

-- One round does nothing, or starts one connection.
abbrev Step : Client → Client → Type 0
Step c d = (d ≡ c) ⊎ ((ip : ℕ) × (port : ℕ) × (d ≡ start_peer ip port c) × IsFresh c ip)

connect_to_peer-Step :
    (ip_and_port : List ℕ) (c : Client) → Ensures (Step c) (connect_to_peer ip_and_port c)
unfolding connect_to_peer
connect_to_peer-Step ip_and_port c = >>=-Ensures (Step c) (read_as_le32 ip_and_port) _ λ ip _.
    if-cases (Ensures (Step c)) (is_skipped c ip) (λ _. inl refl)
      (λ e.
        >>=-Ensures (Step c) (read_as_be16 (drop 4 ip_and_port)) _
          λ port _. inr (ip, port, refl, IsFresh-not_skipped c ip e))

connect_loop-GoodTargets :
    (rounds : ℕ) (peers : List ℕ) (c : Client)
    → Made c
    → Ensures (GoodTargets c) (connect_loop rounds peers c)
unfolding connect_loop start_all
connect_loop-GoodTargets zero peers c made = ([], refl, tt, tt)
connect_loop-GoodTargets (suc rounds) peers c made =
    let go = connect_loop rounds (drop 6 peers) in
    Ensures-then (Step c) (GoodTargets c) (connect_to_peer peers c) go
      (connect_to_peer-Step peers c)
      (λ d step. elim step [
        | inl same ↦
            subst (λ x. Ensures (GoodTargets c) (go x)) (sym same)
              (connect_loop-GoodTargets rounds (drop 6 peers) c made)
        | inr (ip, port, same, fresh) ↦
            subst (λ x. Ensures (GoodTargets c) (go x)) (sym same)
              (Ensures-map (GoodTargets (start_peer ip port c)) (GoodTargets c)
                (go (start_peer ip port c)) (λ e good. one_more ip port c e made fresh good)
                (connect_loop-GoodTargets rounds (drop 6 peers) (start_peer ip port c)
                  (Made-start_peer ip port c made)))
      ])

-- connectToPeers starts connections one after another, to addresses that are not 0, not black-listed and
-- not of an active peer, and to none of them twice, whatever the tracker's text says.
pub connect_to_peers-GoodTargets :
    (peers : List ℕ) (c d : Client) → Made c → connect_to_peers peers c ≡ done d → GoodTargets c d
unfolding connect_to_peers
connect_to_peers-GoodTargets peers c d made e =
    Ensures-done (GoodTargets c) (connect_to_peers peers c) e
      (connect_loop-GoodTargets ((length peers + 5) / 6) (peers ++ 0 ∷ []) c made)
