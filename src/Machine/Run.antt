-- ===== src/Machine/Run.antt =====
-- Every event of the running client makes moves of the abstract machine.
use ytorrent.Base.{
  ℕ, zero, suc, List, Option, some, none, drop, length, Outcome, Ensures-done, >>=-Ensures, if-elim,
}
use ytorrent.Utils.Transcoder.{read_as_le32, read_as_be16}
use ytorrent.Net.Link.{
  ReadCallback, ErrorCallback, ConnectCallback, outgoing_handshake, incoming_handshake,
  message_length, message_body, peer_error, start_handshake, is_connected, write,
}
use ytorrent.Client.{
  Client, Torrent, Platform, modify_peer, run_peer, on_conn, handshake_mismatch, network_error,
}
use ytorrent.Torrent.Swarm.{handshaked, add_peer}
use ytorrent.Torrent.Bitfield.{get_raw_bitfield}
use ytorrent.Torrent.Connect.{
  connect_to_peer, connect_loop, connect_to_peers, is_skipped, start_peer,
}
use ytorrent.Peer.Send.{send_bitfield}
use ytorrent.Peer.Handshake.{
  is_mismatch, on_connect, on_outgoing_handshake, on_incoming_handshake, set_id,
}
use ytorrent.Session.{
  ErrorCode, success, operation_aborted, failure, call_error, close_if_open, handle_failure,
  call_read, commit, on_read, on_write, on_resolve, call_connect, on_connected, make_peer,
  on_accept,
}
use ytorrent.Events.{
  Event, read_done, write_done, resolve_done, connect_done, accepted, tracker_answered, step, Reach,
  here, next,
}
use ytorrent.Machine.{Moves, stay, move, meet}
use ytorrent.Machine.Pieces.{
  Moved, Keeps, run_peer-Moved, then_keep, handle_error-Moved, keep_reading-Moved,
}
use ytorrent.Machine.Messages.{handle-Moved, handle_body-Moved}

module _ (platform : Platform) (start : Torrent) where
  abbrev M : Client → Type 0
  M = Moved platform start

  abbrev K : Outcome Client → Type 0
  K = Keeps platform start

  call_error-Moved : (p : ℕ) (cb : Option ErrorCallback) (c : Client) → M c → M (call_error p cb c)
  unfolding call_error
  call_error-Moved p none c v = v
  call_error-Moved p (some peer_error) c v = handle_error-Moved platform start p network_error c v

  handle_failure-Moved : (p : ℕ) (e : ErrorCode) (c : Client) → M c → M (handle_failure p e c)
  unfolding handle_failure close_if_open
  handle_failure-Moved p success c v = v
  handle_failure-Moved p operation_aborted c v = v
  handle_failure-Moved p failure c v =
      let d = call_error p (c.peers p).conn.error_cb c in
      let w : M d = call_error-Moved p (c.peers p).conn.error_cb c v in
      if-elim M (is_connected (d.peers p).conn) w w

  handshaked-Moved : (p : ℕ) (c : Client) → M c → M (handshaked p c)
  unfolding handshaked add_peer
  handshaked-Moved p c v = move v (meet _ _)

  on_outgoing_handshake-Moved :
      (p : ℕ) (theirs : List ℕ) (size : ℕ) (c : Client)
      → M c
      → M (on_outgoing_handshake p theirs size c)
  unfolding on_outgoing_handshake
  on_outgoing_handshake-Moved p theirs size c v =
      if-elim M (is_mismatch c.torrent.handshake theirs size)
        (handle_error-Moved platform start p handshake_mismatch c v)
        (keep_reading-Moved platform start p _ (handshaked-Moved p _ v))

  on_incoming_handshake-Moved :
      (p : ℕ) (theirs : List ℕ) (size : ℕ) (c : Client)
      → M c
      → K (on_incoming_handshake platform p theirs size c)
  unfolding on_incoming_handshake
  on_incoming_handshake-Moved p theirs size c v =
      if-elim K (is_mismatch c.torrent.handshake theirs size)
        (handle_error-Moved platform start p handshake_mismatch c v)
        (let d = handshaked p (
            modify_peer p (on_conn (write c.torrent.handshake 68))
              (modify_peer p (set_id theirs) c)) in
          then_keep platform start
            (run_peer p (send_bitfield (get_raw_bitfield platform d.torrent)) d) _
            (run_peer-Moved platform start p (send_bitfield (get_raw_bitfield platform d.torrent)) d
              (handshaked-Moved p _ v))
            (λ e w. keep_reading-Moved platform start p e w))

  call_read-Moved :
      (p : ℕ) (cb : Option ReadCallback) (bytes : List ℕ) (size : ℕ) (c : Client)
      → M c
      → K (call_read platform p cb bytes size c)
  unfolding call_read
  call_read-Moved p none bytes size c v = v
  call_read-Moved p (some outgoing_handshake) bytes size c v =
      on_outgoing_handshake-Moved p bytes size c v
  call_read-Moved p (some incoming_handshake) bytes size c v =
      on_incoming_handshake-Moved p bytes size c v
  call_read-Moved p (some message_length) bytes size c v =
      handle-Moved platform start p bytes size c v
  call_read-Moved p (some message_body) bytes size c v =
      handle_body-Moved platform start p bytes size c v

  on_read-Moved :
      (p : ℕ) (e : ErrorCode) (bytes : List ℕ) (c : Client) → M c → K (on_read platform p e bytes c)
  unfolding on_read
  on_read-Moved p operation_aborted bytes c v = handle_failure-Moved p operation_aborted _ v
  on_read-Moved p failure bytes c v = handle_failure-Moved p failure _ v
  on_read-Moved p success bytes c v =
      let d = modify_peer p (on_conn (commit bytes)) c in
      then_keep platform start
        (call_read platform p (d.peers p).conn.read_cb (d.peers p).conn.input_stream (length bytes)
          d)
        _
        (call_read-Moved p (d.peers p).conn.read_cb (d.peers p).conn.input_stream (length bytes) d
          v)
        (λ e w. w)

  on_resolve-Moved : (p : ℕ) (e : ErrorCode) (c : Client) → M c → M (on_resolve p e c)
  unfolding on_resolve
  on_resolve-Moved p success c v = v
  on_resolve-Moved p operation_aborted c v = handle_failure-Moved p operation_aborted _ v
  on_resolve-Moved p failure c v = handle_failure-Moved p failure _ v

  call_connect-Moved :
      (p : ℕ) (cb : Option ConnectCallback) (c : Client) → M c → M (call_connect p cb c)
  unfolding call_connect on_connect
  call_connect-Moved p none c v = v
  call_connect-Moved p (some start_handshake) c v = v

  on_connected-Moved :
      (p : ℕ) (e : ErrorCode) (ip : ℕ) (c : Client) → M c → M (on_connected p e ip c)
  unfolding on_connected
  on_connected-Moved p success ip c v = call_connect-Moved p _ _ v
  on_connected-Moved p operation_aborted ip c v = handle_failure-Moved p operation_aborted _ v
  on_connected-Moved p failure ip c v = handle_failure-Moved p failure _ v

  on_accept-Moved : (ip : ℕ) (c : Client) → M c → M (on_accept ip c)
  unfolding on_accept make_peer
  on_accept-Moved ip c v = move v (meet c.torrent.active_peers _)

  connect_to_peer-Moved : (addr : List ℕ) (c : Client) → M c → K (connect_to_peer addr c)
  unfolding connect_to_peer start_peer make_peer
  connect_to_peer-Moved addr c v = >>=-Ensures M (read_as_le32 addr) _ λ ip e.
      if-elim K (is_skipped c ip) v (
        >>=-Ensures M (read_as_be16 (drop 4 addr)) _
          λ port f. move v (meet c.torrent.active_peers _))

  connect_loop-Moved : (n : ℕ) (peers : List ℕ) (c : Client) → M c → K (connect_loop n peers c)
  unfolding connect_loop
  connect_loop-Moved zero peers c v = v
  connect_loop-Moved (suc n) peers c v =
      then_keep platform start (connect_to_peer peers c) _ (connect_to_peer-Moved peers c v)
        (λ d w. connect_loop-Moved n (drop 6 peers) d w)

  pub step-Moved : (ev : Event) (c : Client) → M c → K (step platform ev c)
  unfolding step on_write connect_to_peers
  step-Moved (read_done p e bytes) c v = on_read-Moved p e bytes c v
  step-Moved (write_done p e) c v = handle_failure-Moved p e c v
  step-Moved (resolve_done p e) c v = on_resolve-Moved p e c v
  step-Moved (connect_done p e ip) c v = on_connected-Moved p e ip c v
  step-Moved (accepted ip) c v = on_accept-Moved ip c v
  step-Moved (tracker_answered peers) c v = connect_loop-Moved _ _ c v

-- The events of the client, its handlers with all their guards, refine the abstract machine: whatever they
-- do to the torrent is a sequence of its moves, so a piece is accepted only with the right hash and where it
-- was not there yet, and the file changes in no other way.
pub Reach-Moves :
    (platform : Platform) (c d : Client) → Reach platform c d → Moves platform c.torrent d.torrent
Reach-Moves platform c d here = stay
Reach-Moves platform c d (next {d = e} ev r s) =
    Ensures-done (Moved platform c.torrent) (step platform ev e) s
      (step-Moved platform c.torrent ev e (Reach-Moves platform c e r))
