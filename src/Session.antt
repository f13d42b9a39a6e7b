-- ===== src/Session.antt =====
-- src/net/connection.cpp: the handlers that asio calls, and src/net/acceptor.cpp with the callback that
-- src/torrent/torrent.cpp gives it. Each event is one call of the io_context's thread.
use ytorrent.Base.{
  ℕ, ◌+◌, List, ◌++◌, Option, some, none, true, false, if◌then◌else◌, drop, length, Outcome, done,
  ◌>>=◌,
}
use ytorrent.Net.Link.{
  Connection, ReadCallback, ConnectCallback, ErrorCallback, outgoing_handshake, incoming_handshake,
  message_length, message_body, close, new_connection, is_connected, start_handshake, peer_error,
}
use ytorrent.Client.{
  Client, Platform, modify_peer, on_conn, on_torrent, set_peer, new_peer, network_error,
}
use ytorrent.Torrent.Swarm.{handle_error, black_list_insert, get_raw_ip}
use ytorrent.Peer.Dispatch.{handle, handle_body}
use ytorrent.Peer.Handshake.{on_connect, on_outgoing_handshake, on_incoming_handshake, authenticate}

-- boost::system::error_code.
pub data ErrorCode : Type 0 where
  success operation_aborted failure : ErrorCode

unfoldable pub call_error : ℕ → Option ErrorCallback → Client → Client
call_error p none c = c
call_error p (some peer_error) c = handle_error p network_error c

unfoldable pub close_if_open : ℕ → Client → Client
close_if_open p c = if is_connected (c.peers p).conn then modify_peer p (on_conn close) c else c

-- Connection::handleError on an error of asio.
unfoldable pub handle_failure : ℕ → ErrorCode → Client → Client
handle_failure p success c = c
handle_failure p operation_aborted c = c
handle_failure p failure c = close_if_open p (call_error p (c.peers p).conn.error_cb c)

unfoldable pub call_read : Platform → ℕ → Option ReadCallback → List ℕ → ℕ → Client → Outcome Client
call_read platform p none bytes size c = done c
call_read platform p (some outgoing_handshake) bytes size c =
    done (on_outgoing_handshake p bytes size c)
call_read platform p (some incoming_handshake) bytes size c =
    on_incoming_handshake platform p bytes size c
call_read platform p (some message_length) bytes size c = handle p bytes size c
call_read platform p (some message_body) bytes size c = handle_body platform p bytes size c

-- `inputStream.commit`, and asio's own account of the read.
abbrev pub commit : List ℕ → Connection → Connection
commit bytes k = record k { input_stream = k.input_stream ++ bytes; reads = drop 1 k.reads }

abbrev pub consume : ℕ → Connection → Connection
consume size k = record k { input_stream = drop size k.input_stream }

-- The read handler. After an error nothing is consumed.
unfoldable pub on_read : Platform → ℕ → ErrorCode → List ℕ → Client → Outcome Client
on_read platform p operation_aborted bytes c =
    done (handle_failure p operation_aborted (modify_peer p (on_conn (commit bytes)) c))
on_read platform p failure bytes c =
    done (handle_failure p failure (modify_peer p (on_conn (commit bytes)) c))
on_read platform p success bytes c = do
  let d = modify_peer p (on_conn (commit bytes)) c
  e ← call_read platform p (d.peers p).conn.read_cb (d.peers p).conn.input_stream (length bytes) d
  done (modify_peer p (on_conn (consume (length bytes))) e)

unfoldable pub on_write : ℕ → ErrorCode → Client → Client
on_write p e c = handle_failure p e c

abbrev pub resolved : Connection → Connection
resolved k = record k { resolving = none }

abbrev pub opened : Connection → Connection
opened k = record k { resolving = none; connecting = true; is_open = true }

abbrev pub ended : Connection → Connection
ended k = record k { connecting = false }

abbrev pub established : ℕ → Connection → Connection
established ip k = record k { connecting = false; remote = some ip }

-- The resolve handler. async_connect opens the socket.
unfoldable pub on_resolve : ℕ → ErrorCode → Client → Client
on_resolve p success c = modify_peer p (on_conn opened) c
on_resolve p operation_aborted c =
    handle_failure p operation_aborted (modify_peer p (on_conn resolved) c)
on_resolve p failure c = handle_failure p failure (modify_peer p (on_conn resolved) c)

unfoldable pub call_connect : ℕ → Option ConnectCallback → Client → Client
call_connect p none c = c
call_connect p (some start_handshake) c = on_connect p c

-- The connect handler; `ip` is the address that the socket is connected to.
unfoldable pub on_connected : ℕ → ErrorCode → ℕ → Client → Client
on_connected p success ip c =
    let d = modify_peer p (on_conn (established ip)) c in call_connect p (d.peers p).conn.conn_cb d
on_connected p operation_aborted ip c =
    handle_failure p operation_aborted (modify_peer p (on_conn ended) c)
on_connected p failure ip c = handle_failure p failure (modify_peer p (on_conn ended) c)

-- A new peer object in the store.
unfoldable pub make_peer : Connection → Client → Client
make_peer k c = record (set_peer c.allocated (new_peer k) c) { allocated = c.allocated + 1 }

abbrev pub accepted_connection : ℕ → Connection
accepted_connection ip = record new_connection { is_open = true; remote = some ip }

-- The accept handler's callback: the peer is kept off the list of addresses to connect to.
unfoldable pub on_accept : ℕ → Client → Client
on_accept ip c =
    let p = c.allocated in
    let d = make_peer (accepted_connection ip) c in
    modify_peer p authenticate (
      on_torrent
        (λ t. record t { black_listed = black_list_insert (get_raw_ip d p) t.black_listed }) d)
