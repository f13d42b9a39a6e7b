-- ===== src/Events.antt =====
-- What can happen to the running client: the completions of asio, a new connection, and an answer of the
-- tracker, in any order. The io_context's thread and the main thread take turns at whole events.
use ytorrent.Base.{ℕ, ◌≡◌, subst, List, [], ◌∷◌, ◌>>=◌, >>=-eq-done, done-injective, Outcome, done}
use ytorrent.Client.{Client, Platform}
use ytorrent.Torrent.Connect.{connect_to_peers}
use ytorrent.Session.{ErrorCode, on_read, on_write, on_resolve, on_connected, on_accept}

pub data Event : Type 0 where
  read_done : ℕ → ErrorCode → List ℕ → Event
  write_done resolve_done : ℕ → ErrorCode → Event
  connect_done : ℕ → ErrorCode → ℕ → Event
  accepted : ℕ → Event
  tracker_answered : List ℕ → Event

unfoldable pub step : Platform → Event → Client → Outcome Client
step platform (read_done p e bytes) c = on_read platform p e bytes c
step platform (write_done p e) c = done (on_write p e c)
step platform (resolve_done p e) c = done (on_resolve p e c)
step platform (connect_done p e ip) c = done (on_connected p e ip c)
step platform (accepted ip) c = done (on_accept ip c)
step platform (tracker_answered peers) c = connect_to_peers peers c

-- The states that events lead to.
pub data Reach (platform : Platform) (c : Client) : Client → Type 0 where
  here : Reach platform c c
  next :
      {d e : Client} (ev : Event)
      → Reach platform c d
      → step platform ev d ≡ done e
      → Reach platform c e

-- Events one after the other.
unfoldable pub run : Platform → List Event → Client → Outcome Client
run platform [] c = done c
run platform (ev ∷ evs) c = do d ← step platform ev c; run platform evs d

Reach-trans :
    {platform : Platform} {c d e : Client}
    → Reach platform c d
    → Reach platform d e
    → Reach platform c e
Reach-trans r here = r
Reach-trans r (next ev s h) = next ev (Reach-trans r s) h

pub run-Reach :
    (platform : Platform) (evs : List Event) (c : Client) {d : Client}
    → run platform evs c ≡ done d
    → Reach platform c d
unfolding run
run-Reach platform [] c e = subst (Reach platform c) (done-injective e) here
run-Reach platform (ev ∷ evs) c e =
    let (m, first, rest) = >>=-eq-done (step platform ev c) (run platform evs) e in
    Reach-trans (next ev here first) (run-Reach platform evs m rest)
