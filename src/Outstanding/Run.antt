-- ===== src/Outstanding/Run.antt =====
-- From the start of the client on, no connection waits for two operations, as long as asio completes only
-- what it was asked for.
use ytorrent.Base.{
  ℕ, zero, suc, ◌≤◌, ◌<◌, ◌≡◌, refl, sym, subst, ◌∙◌, List, Option, some, none, Bool, true, false,
  ◌==◌, test_of_same, drop, length, length-drop, arith, Outcome, done, Ensures, Ensures-done,
  Ensures-then, >>=-Ensures, if-elim, if-cases,
}
use ytorrent.Utils.Transcoder.{read_as_le32, read_as_be16}
use ytorrent.Utils.Text.{parse_ip, to_string}
use ytorrent.Net.Link.{
  Connection, ReadCallback, ErrorCallback, ConnectCallback, outgoing_handshake, incoming_handshake,
  message_length, message_body, peer_error, start_handshake, is_connected, write, connect,
  set_error_callback, new_connection,
}
use ytorrent.Client.{
  Client, Peer, Platform, set_peer, modify_peer, run_peer, on_conn, new_peer, handshake_mismatch,
}
use ytorrent.Torrent.Swarm.{
  handshaked, add_peer, remove_peer, disconnect_peer, disconnect, handle_error,
}
use ytorrent.Torrent.Bitfield.{get_raw_bitfield}
use ytorrent.Torrent.Connect.{
  connect_to_peer, connect_loop, connect_to_peers, is_skipped, start_peer,
}
use ytorrent.Peer.Send.{send_bitfield}
use ytorrent.Peer.Handshake.{
  is_mismatch, on_connect, on_outgoing_handshake, on_incoming_handshake, authenticate, set_id,
  peer_connect,
}
use ytorrent.Session.{
  ErrorCode, success, operation_aborted, failure, call_error, close_if_open, handle_failure,
  call_read, commit, resolved, opened, ended, established, on_read, on_write, on_resolve,
  call_connect, on_connected, make_peer, accepted_connection, on_accept,
}
use ytorrent.Events.{
  Event, read_done, write_done, resolve_done, connect_done, accepted, tracker_answered, step,
}
use ytorrent.Outstanding.{count_some, pending, Calm, Idle}
use ytorrent.Outstanding.Peers.{
  write-pending, close-pending, send_bitfield-Quiet, disconnect_peer-Quiet, set_peer-Calm,
  run_peer-Idle, read-one,
}
use ytorrent.Outstanding.Pieces.{Ends, ends, keep_reading-Calm, handle_error-Calm, modify_peer-Idle}
use ytorrent.Outstanding.Messages.{handle-Calm, handle_body-Calm}

-- The event completes an operation that asio was asked for.
abbrev pub Asked : Event → Client → Type 0
Asked (read_done q e bytes) c = 0 < length (c.peers q).conn.reads
Asked (write_done q e) c = Unit
Asked (resolve_done q e) c = count_some (c.peers q).conn.resolving ≡ 1
Asked (connect_done q e ip) c = (c.peers q).conn.connecting ≡ true
Asked (accepted ip) c = Unit
Asked (tracker_answered peers) c = Unit

-- The states that such events lead to.
pub data Orderly (platform : Platform) (c : Client) : Client → Type 0 where
  here : Orderly platform c c
  next :
      {d e : Client} (ev : Event)
      → Orderly platform c d
      → Asked ev d
      → step platform ev d ≡ done e
      → Orderly platform c e

-- A completed operation leaves its connection idle.
settle : (q : ℕ) (x : Peer) (c : Client) → pending x.conn ≡ 0 → Calm c → Idle q (set_peer q x c)
settle q x c e v = (
  set_peer-Calm q x c (omega (arith, e)) v,
  if-cases (λ (y : Peer). pending y.conn ≡ 0) (q == q) (λ _. e)
      (λ other. absurd (differs (test_of_same q q refl) other)),
)
  where
    differs : {b : Bool} → b ≡ true → b ≡ false → ⊥
    differs h k = cc

commit-pending :
    (bytes : List ℕ) (k : Connection)
    → pending k ≤ 1
    → 0 < length k.reads
    → pending (commit bytes k) ≡ 0
commit-pending bytes k h asked = omega (arith, length-drop 1 k.reads)

resolved-pending :
    (k : Connection) → pending k ≤ 1 → count_some k.resolving ≡ 1 → pending (resolved k) ≡ 0
resolved-pending k h asked = omega arith

opened-pending :
    (k : Connection) → pending k ≤ 1 → count_some k.resolving ≡ 1 → pending (opened k) ≤ 1
opened-pending k h asked = omega arith

ended-pending : (k : Connection) → pending k ≤ 1 → k.connecting ≡ true → pending (ended k) ≡ 0
ended-pending k h asked = ground arith

module _ (platform : Platform) (p : ℕ) where
  abbrev E : Outcome Client → Type 0
  E = Ends platform p

  close_if_open-Calm : (c : Client) → Calm c → Calm (close_if_open p c)
  unfolding close_if_open
  close_if_open-Calm c v =
      if-elim Calm (is_connected (c.peers p).conn)
        (set_peer-Calm p _ c (subst (λ n. n ≤ 1) (sym (close-pending (c.peers p).conn)) (v p)) v) v

  call_error-Calm : (cb : Option ErrorCallback) (c : Client) → Calm c → Calm (call_error p cb c)
  unfolding call_error handle_error remove_peer disconnect
  call_error-Calm none c v = v
  call_error-Calm (some peer_error) c v =
      set_peer-Calm p (disconnect_peer (c.peers p)) c
        (subst (λ n. n ≤ 1) (sym (disconnect_peer-Quiet (c.peers p))) (v p)) v

  handle_failure-Calm : (e : ErrorCode) (c : Client) → Calm c → Calm (handle_failure p e c)
  unfolding handle_failure
  handle_failure-Calm success c v = v
  handle_failure-Calm operation_aborted c v = v
  handle_failure-Calm failure c v =
      close_if_open-Calm _ (call_error-Calm (c.peers p).conn.error_cb c v)

  on_outgoing_handshake-Calm :
      (theirs : List ℕ) (size : ℕ) (c : Client)
      → Idle p c
      → Calm (on_outgoing_handshake p theirs size c)
  unfolding on_outgoing_handshake handshaked add_peer
  on_outgoing_handshake-Calm theirs size c v =
      if-elim Calm (is_mismatch c.torrent.handshake theirs size)
        (handle_error-Calm platform p handshake_mismatch c v)
        (keep_reading-Calm platform p (handshaked p (modify_peer p (set_id theirs) c))
          (modify_peer-Idle platform p (set_id theirs) c refl v))

  on_incoming_handshake-Calm :
      (theirs : List ℕ) (size : ℕ) (c : Client)
      → Idle p c
      → E (on_incoming_handshake platform p theirs size c)
  unfolding on_incoming_handshake handshaked add_peer
  on_incoming_handshake-Calm theirs size c v =
      if-elim E (is_mismatch c.torrent.handshake theirs size)
        (handle_error-Calm platform p handshake_mismatch c v)
        (let named = modify_peer p (set_id theirs) c in
          let answered = modify_peer p (on_conn (write c.torrent.handshake 68)) named in
          let d = handshaked p answered in
          let w : Idle p answered =
            modify_peer-Idle platform p (on_conn (write c.torrent.handshake 68)) named
              (write-pending c.torrent.handshake 68 (named.peers p).conn)
              (modify_peer-Idle platform p (set_id theirs) c refl v) in
          let bits = get_raw_bitfield platform d.torrent in
          ends platform p (run_peer p (send_bitfield bits) d) _
            (run_peer-Idle p p (send_bitfield bits) d (send_bitfield-Quiet bits (d.peers p)) w)
            (λ e u. keep_reading-Calm platform p e u))

  call_read-Calm :
      (cb : Option ReadCallback) (bytes : List ℕ) (size : ℕ) (c : Client)
      → Idle p c
      → E (call_read platform p cb bytes size c)
  unfolding call_read
  call_read-Calm none bytes size c v = v.0
  call_read-Calm (some outgoing_handshake) bytes size c v =
      on_outgoing_handshake-Calm bytes size c v
  call_read-Calm (some incoming_handshake) bytes size c v =
      on_incoming_handshake-Calm bytes size c v
  call_read-Calm (some message_length) bytes size c v = handle-Calm platform p bytes size c v
  call_read-Calm (some message_body) bytes size c v = handle_body-Calm platform p bytes size c v

  on_read-Calm :
      (e : ErrorCode) (bytes : List ℕ) (c : Client)
      → Calm c
      → 0 < length (c.peers p).conn.reads
      → E (on_read platform p e bytes c)
  unfolding on_read
  on_read-Calm operation_aborted bytes c v asked =
      handle_failure-Calm operation_aborted _
        (settle p (on_conn (commit bytes) (c.peers p)) c
          (commit-pending bytes (c.peers p).conn (v p) asked) v).0
  on_read-Calm failure bytes c v asked =
      handle_failure-Calm failure _
        (settle p (on_conn (commit bytes) (c.peers p)) c
          (commit-pending bytes (c.peers p).conn (v p) asked) v).0
  on_read-Calm success bytes c v asked =
      let d = modify_peer p (on_conn (commit bytes)) c in
      let w : Idle p d =
        settle p (on_conn (commit bytes) (c.peers p)) c
          (commit-pending bytes (c.peers p).conn (v p) asked) v in
      Ensures-then Calm Calm
        (call_read platform p (d.peers p).conn.read_cb (d.peers p).conn.input_stream (length bytes)
          d)
        _ (call_read-Calm (d.peers p).conn.read_cb (d.peers p).conn.input_stream (length bytes) d w)
        (λ e u. set_peer-Calm p _ e (u p) u)

  on_resolve-Calm :
      (e : ErrorCode) (c : Client)
      → Calm c
      → count_some (c.peers p).conn.resolving ≡ 1
      → Calm (on_resolve p e c)
  unfolding on_resolve
  on_resolve-Calm success c v asked =
      set_peer-Calm p _ c (opened-pending (c.peers p).conn (v p) asked) v
  on_resolve-Calm operation_aborted c v asked =
      handle_failure-Calm operation_aborted _
        (settle p (on_conn resolved (c.peers p)) c (resolved-pending (c.peers p).conn (v p) asked)
          v).0
  on_resolve-Calm failure c v asked =
      handle_failure-Calm failure _
        (settle p (on_conn resolved (c.peers p)) c (resolved-pending (c.peers p).conn (v p) asked)
          v).0

  call_connect-Calm :
      (cb : Option ConnectCallback) (c : Client) → Idle p c → Calm (call_connect p cb c)
  unfolding call_connect on_connect
  call_connect-Calm none c v = v.0
  call_connect-Calm (some start_handshake) c v =
      let k = (c.peers p).conn in
      set_peer-Calm p _ c
        (read-one 68 outgoing_handshake (write c.torrent.handshake 68 k)
          (write-pending c.torrent.handshake 68 k ∙ v.1))
        v.0

  on_connected-Calm :
      (e : ErrorCode) (ip : ℕ) (c : Client)
      → Calm c
      → (c.peers p).conn.connecting ≡ true
      → Calm (on_connected p e ip c)
  unfolding on_connected
  on_connected-Calm success ip c v asked = call_connect-Calm _ _ (
      settle p (on_conn (established ip) (c.peers p)) c (ended-pending (c.peers p).conn (v p) asked)
        v)
  on_connected-Calm operation_aborted ip c v asked =
      handle_failure-Calm operation_aborted _
        (settle p (on_conn ended (c.peers p)) c (ended-pending (c.peers p).conn (v p) asked) v).0
  on_connected-Calm failure ip c v asked =
      handle_failure-Calm failure _
        (settle p (on_conn ended (c.peers p)) c (ended-pending (c.peers p).conn (v p) asked) v).0

-- A new peer waits for nothing; then it is read from, or resolved.
make_peer-Idle :
    (k : Connection) (c : Client) → pending k ≡ 0 → Calm c → Idle c.allocated (make_peer k c)
unfolding make_peer new_peer
make_peer-Idle k c e v = settle c.allocated (new_peer k) c e v

on_accept-Calm : (ip : ℕ) (c : Client) → Calm c → Calm (on_accept ip c)
unfolding on_accept authenticate new_connection set_error_callback
on_accept-Calm ip c v =
    let d = make_peer (accepted_connection ip) c in
    let w : Idle c.allocated d = make_peer-Idle (accepted_connection ip) c refl v in
    set_peer-Calm c.allocated (authenticate (d.peers c.allocated)) d
      (read-one 68 incoming_handshake
        (set_error_callback (some peer_error) (d.peers c.allocated).conn) w.1)
      w.0

connect-pending :
    (host port : List ℕ) (cb : ConnectCallback) (k : Connection)
    → pending k ≡ 0
    → pending (connect host port cb k) ≤ 1
unfolding connect
connect-pending host port cb k e = omega arith

start_peer-Calm : (ip port : ℕ) (c : Client) → Calm c → Calm (start_peer ip port c)
unfolding start_peer peer_connect new_connection set_error_callback
start_peer-Calm ip port c v =
    let d = make_peer new_connection c in
    let w : Idle c.allocated d = make_peer-Idle new_connection c refl v in
    set_peer-Calm c.allocated (peer_connect (parse_ip ip) (to_string port) (d.peers c.allocated)) d
      (connect-pending (parse_ip ip) (to_string port) start_handshake
        (set_error_callback (some peer_error) (d.peers c.allocated).conn) w.1)
      w.0

connect_to_peer-Calm : (addr : List ℕ) (c : Client) → Calm c → Ensures Calm (connect_to_peer addr c)
unfolding connect_to_peer
connect_to_peer-Calm addr c v = >>=-Ensures Calm (read_as_le32 addr) _ λ ip e.
    if-elim (Ensures Calm) (is_skipped c ip) v
      (>>=-Ensures Calm (read_as_be16 (drop 4 addr)) _ λ port f. start_peer-Calm ip port c v)

connect_loop-Calm :
    (n : ℕ) (peers : List ℕ) (c : Client) → Calm c → Ensures Calm (connect_loop n peers c)
unfolding connect_loop
connect_loop-Calm zero peers c v = v
connect_loop-Calm (suc n) peers c v =
    Ensures-then Calm Calm (connect_to_peer peers c) _ (connect_to_peer-Calm peers c v)
      (λ d w. connect_loop-Calm n (drop 6 peers) d w)

module _ (platform : Platform) where
  step-Calm : (ev : Event) (c : Client) → Calm c → Asked ev c → Ensures Calm (step platform ev c)
  unfolding step on_write connect_to_peers
  step-Calm (read_done p e bytes) c v asked = on_read-Calm platform p e bytes c v asked
  step-Calm (write_done p e) c v asked = handle_failure-Calm platform p e c v
  step-Calm (resolve_done p e) c v asked = on_resolve-Calm platform p e c v asked
  step-Calm (connect_done p e ip) c v asked = on_connected-Calm platform p e ip c v asked
  step-Calm (accepted ip) c v asked = on_accept-Calm ip c v
  step-Calm (tracker_answered peers) c v asked = connect_loop-Calm _ _ c v

-- As long as asio completes only what it was asked for, no connection ever waits for two operations: it is
-- resolving, connecting, or has one read outstanding, whatever the peers send.
pub Orderly-Calm : (platform : Platform) (c d : Client) → Calm c → Orderly platform c d → Calm d
Orderly-Calm platform c d v here = v
Orderly-Calm platform c d v (next {d = e} ev r asked s) =
    Ensures-done Calm (step platform ev e) s
      (step-Calm platform ev e (Orderly-Calm platform c e v r) asked)
