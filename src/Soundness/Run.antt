-- ===== src/Soundness/Run.antt =====
-- From the parsed torrent file through any events, the client stays sound.
use ytorrent.Base.{
  ℕ, zero, suc, ◌%◌, ◌≡◌, refl, List, Option, some, none, length, drop, Ensures, Ensures-done,
  Ensures-then, >>=-Ensures, if-elim,
}
use ytorrent.Utils.Transcoder.{read_as_le32, read_as_be16}
use ytorrent.Net.Link.{
  Connection, ReadCallback, ErrorCallback, ConnectCallback, outgoing_handshake, incoming_handshake,
  message_length, message_body, peer_error, start_handshake, close, is_connected, new_connection,
  write, read,
}
use ytorrent.Client.{
  Client, Platform, max_block_request_size, modify_peer, run_peer, on_conn, on_torrent,
  handshake_mismatch, network_error, new_peer,
}
use ytorrent.Torrent.Swarm.{handshaked, add_peer, get_raw_ip, black_list_insert}
use ytorrent.Utils.Text.{parse_ip, to_string}
use ytorrent.Torrent.Bitfield.{get_raw_bitfield}
use ytorrent.Torrent.Connect.{
  connect_to_peer, connect_loop, connect_to_peers, is_skipped, start_peer,
}
use ytorrent.Peer.Send.{send_bitfield}
use ytorrent.Peer.Handshake.{
  is_mismatch, on_connect, on_outgoing_handshake, on_incoming_handshake, authenticate, set_id,
  peer_connect,
}
use ytorrent.Session.{
  ErrorCode, success, operation_aborted, failure, call_error, close_if_open, handle_failure,
  call_read, commit, consume, opened, resolved, ended, established, on_read, on_write, on_resolve,
  call_connect, on_connected, make_peer, accepted_connection, on_accept,
}
use ytorrent.Events.{
  Event, read_done, write_done, resolve_done, connect_done, accepted, tracker_answered, step, Reach,
  here, next,
}
use ytorrent.Soundness.{Sound}
use ytorrent.Soundness.Peers.{
  set_peer-Sound, run_peer-Sound, handle_error-Sound, send_bitfield-KeepsQueue,
}
use ytorrent.Soundness.Handlers.{
  keep_reading-Sound, modify_peer-Sound, handle_body-Sound, handle-Sound,
}

module _ (platform : Platform) (spacing : ℕ) where
  abbrev S : Client → Type 0
  S = Sound platform spacing

  on_conn-Sound :
      (p : ℕ) (f : Connection → Connection) (c : Client) → S c → S (modify_peer p (on_conn f) c)
  on_conn-Sound p f c v = modify_peer-Sound platform spacing p (on_conn f) c refl v

  call_error-Sound : (p : ℕ) (cb : Option ErrorCallback) (c : Client) → S c → S (call_error p cb c)
  unfolding call_error
  call_error-Sound p none c v = v
  call_error-Sound p (some peer_error) c v = handle_error-Sound platform spacing p network_error c v

  handle_failure-Sound : (p : ℕ) (e : ErrorCode) (c : Client) → S c → S (handle_failure p e c)
  unfolding handle_failure close_if_open
  handle_failure-Sound p success c v = v
  handle_failure-Sound p operation_aborted c v = v
  handle_failure-Sound p failure c v =
      let d = call_error p (c.peers p).conn.error_cb c in
      let w : S d = call_error-Sound p (c.peers p).conn.error_cb c v in
      if-elim S (is_connected (d.peers p).conn) (on_conn-Sound p close d w) w

  handshaked-Sound : (p : ℕ) (c : Client) → S c → S (handshaked p c)
  unfolding handshaked add_peer
  handshaked-Sound p c v = v

  on_outgoing_handshake-Sound :
      (p : ℕ) (theirs : List ℕ) (size : ℕ) (c : Client)
      → S c
      → S (on_outgoing_handshake p theirs size c)
  unfolding on_outgoing_handshake
  on_outgoing_handshake-Sound p theirs size c v =
      if-elim S (is_mismatch c.torrent.handshake theirs size)
        (handle_error-Sound platform spacing p handshake_mismatch c v)
        (keep_reading-Sound platform spacing p _
          (handshaked-Sound p _ (modify_peer-Sound platform spacing p (set_id theirs) c refl v)))

  on_incoming_handshake-Sound :
      (p : ℕ) (theirs : List ℕ) (size : ℕ) (c : Client)
      → S c
      → Ensures S (on_incoming_handshake platform p theirs size c)
  unfolding on_incoming_handshake
  on_incoming_handshake-Sound p theirs size c v =
      if-elim (Ensures S) (is_mismatch c.torrent.handshake theirs size)
        (handle_error-Sound platform spacing p handshake_mismatch c v)
        (let named = modify_peer p (set_id theirs) c in
          let answered = modify_peer p (on_conn (write c.torrent.handshake 68)) named in
          let d = handshaked p answered in
          let w : S d = handshaked-Sound p answered (
            on_conn-Sound p (write c.torrent.handshake 68) named
              (modify_peer-Sound platform spacing p (set_id theirs) c refl v)) in
          Ensures-then S S (run_peer p (send_bitfield (get_raw_bitfield platform d.torrent)) d) _
            (run_peer-Sound platform spacing p (send_bitfield (get_raw_bitfield platform d.torrent))
              d (send_bitfield-KeepsQueue (get_raw_bitfield platform d.torrent) (d.peers p)) w)
            (λ e u. keep_reading-Sound platform spacing p e u))

  on_connect-Sound : (p : ℕ) (c : Client) → S c → S (on_connect p c)
  unfolding on_connect
  on_connect-Sound p c v =
      on_conn-Sound p (λ k. read 68 outgoing_handshake (write c.torrent.handshake 68 k)) c v

  call_connect-Sound :
      (p : ℕ) (cb : Option ConnectCallback) (c : Client) → S c → S (call_connect p cb c)
  unfolding call_connect
  call_connect-Sound p none c v = v
  call_connect-Sound p (some start_handshake) c v = on_connect-Sound p c v

  on_resolve-Sound : (p : ℕ) (e : ErrorCode) (c : Client) → S c → S (on_resolve p e c)
  unfolding on_resolve
  on_resolve-Sound p success c v = on_conn-Sound p opened c v
  on_resolve-Sound p operation_aborted c v =
      handle_failure-Sound p operation_aborted _ (on_conn-Sound p resolved c v)
  on_resolve-Sound p failure c v = handle_failure-Sound p failure _ (on_conn-Sound p resolved c v)

  on_connected-Sound :
      (p : ℕ) (e : ErrorCode) (ip : ℕ) (c : Client) → S c → S (on_connected p e ip c)
  unfolding on_connected
  on_connected-Sound p success ip c v =
      call_connect-Sound p _ _ (on_conn-Sound p (established ip) c v)
  on_connected-Sound p operation_aborted ip c v =
      handle_failure-Sound p operation_aborted _ (on_conn-Sound p ended c v)
  on_connected-Sound p failure ip c v = handle_failure-Sound p failure _ (on_conn-Sound p ended c v)

  make_peer-Sound : (k : Connection) (c : Client) → S c → S (make_peer k c)
  unfolding make_peer new_peer
  make_peer-Sound k c v = set_peer-Sound platform spacing c.allocated (new_peer k) c tt v

  on_accept-Sound : (ip : ℕ) (c : Client) → S c → S (on_accept ip c)
  unfolding on_accept authenticate
  on_accept-Sound ip c v =
      let d = make_peer (accepted_connection ip) c in
      let w : S d = make_peer-Sound (accepted_connection ip) c v in
      let black = black_list_insert (get_raw_ip d c.allocated) d.torrent.black_listed in
      modify_peer-Sound platform spacing c.allocated authenticate
        (on_torrent (λ t. record t { black_listed = black }) d) refl w

  start_peer-Sound : (ip port : ℕ) (c : Client) → S c → S (start_peer ip port c)
  unfolding start_peer peer_connect
  start_peer-Sound ip port c v =
      let d = make_peer new_connection c in
      let w : S d = make_peer-Sound new_connection c v in
      let black = black_list_insert ip d.torrent.black_listed in
      modify_peer-Sound platform spacing c.allocated (peer_connect (parse_ip ip) (to_string port))
        (on_torrent (λ t. record t { black_listed = black }) d) refl w

  connect_to_peer-Sound : (addr : List ℕ) (c : Client) → S c → Ensures S (connect_to_peer addr c)
  unfolding connect_to_peer
  connect_to_peer-Sound addr c v = >>=-Ensures S (read_as_le32 addr) _ λ ip e.
      if-elim (Ensures S) (is_skipped c ip) v
        (>>=-Ensures S (read_as_be16 (drop 4 addr)) _ λ port f. start_peer-Sound ip port c v)

  connect_loop-Sound :
      (n : ℕ) (peers : List ℕ) (c : Client) → S c → Ensures S (connect_loop n peers c)
  unfolding connect_loop
  connect_loop-Sound zero peers c v = v
  connect_loop-Sound (suc n) peers c v =
      Ensures-then S S (connect_to_peer peers c) _ (connect_to_peer-Sound peers c v)
        (λ d w. connect_loop-Sound n (drop 6 peers) d w)

  connect_to_peers-Sound :
      (peers : List ℕ) (c : Client) → S c → Ensures S (connect_to_peers peers c)
  unfolding connect_to_peers
  connect_to_peers-Sound peers c v = connect_loop-Sound _ _ c v

module _ (platform : Platform) (spacing : ℕ) (aligned : spacing % max_block_request_size ≡ 0) where
  abbrev S' : Client → Type 0
  S' = Sound platform spacing

  call_read-Sound :
      (p : ℕ) (cb : Option ReadCallback) (bytes : List ℕ) (size : ℕ) (c : Client)
      → S' c
      → Ensures S' (call_read platform p cb bytes size c)
  unfolding call_read
  call_read-Sound p none bytes size c v = v
  call_read-Sound p (some outgoing_handshake) bytes size c v =
      on_outgoing_handshake-Sound platform spacing p bytes size c v
  call_read-Sound p (some incoming_handshake) bytes size c v =
      on_incoming_handshake-Sound platform spacing p bytes size c v
  call_read-Sound p (some message_length) bytes size c v =
      handle-Sound platform spacing aligned p bytes size c v
  call_read-Sound p (some message_body) bytes size c v =
      handle_body-Sound platform spacing aligned p bytes size c v

  on_read-Sound :
      (p : ℕ) (e : ErrorCode) (bytes : List ℕ) (c : Client)
      → S' c
      → Ensures S' (on_read platform p e bytes c)
  unfolding on_read
  on_read-Sound p operation_aborted bytes c v =
      handle_failure-Sound platform spacing p operation_aborted _
        (on_conn-Sound platform spacing p (commit bytes) c v)
  on_read-Sound p failure bytes c v =
      handle_failure-Sound platform spacing p failure _
        (on_conn-Sound platform spacing p (commit bytes) c v)
  on_read-Sound p success bytes c v =
      let d = modify_peer p (on_conn (commit bytes)) c in
      let w : S' d = on_conn-Sound platform spacing p (commit bytes) c v in
      Ensures-then S' S'
        (call_read platform p (d.peers p).conn.read_cb (d.peers p).conn.input_stream (length bytes)
          d)
        _
        (call_read-Sound p (d.peers p).conn.read_cb (d.peers p).conn.input_stream (length bytes) d
          w)
        (λ e u. on_conn-Sound platform spacing p (consume (length bytes)) e u)

  pub step-Sound : (ev : Event) (c : Client) → S' c → Ensures S' (step platform ev c)
  unfolding step on_write
  step-Sound (read_done p e bytes) c v = on_read-Sound p e bytes c v
  step-Sound (write_done p e) c v = handle_failure-Sound platform spacing p e c v
  step-Sound (resolve_done p e) c v = on_resolve-Sound platform spacing p e c v
  step-Sound (connect_done p e ip) c v = on_connected-Sound platform spacing p e ip c v
  step-Sound (accepted ip) c v = on_accept-Sound platform spacing ip c v
  step-Sound (tracker_answered peers) c v = connect_to_peers-Sound platform spacing peers c v

  -- Through any sequence of events that the client survives, it stays sound: the number of completed
  -- pieces, the bit field and the pieces' flags agree, and at the place of every finished piece the file
  -- holds bytes with that piece's hash. The pieces are a whole number of blocks long.
  pub Reach-Sound : (c d : Client) → S' c → Reach platform c d → S' d
  Reach-Sound c d v here = v
  Reach-Sound c d v (next {d = e} ev r s) =
      Ensures-done S' (step platform ev e) s (step-Sound ev e (Reach-Sound c e v r))
