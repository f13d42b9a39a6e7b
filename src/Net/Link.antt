-- ===== src/Net/Link.antt =====
-- src/net/connection.hpp and connection.cpp: what a connection is and what it is asked to do. How it
-- answers asio's completions is in Session, since the callbacks run the peer's code.
use ytorrent.Base.{
  ℕ, List, [], ◌∷◌, ◌++◌, Option, some, none, Bool, false, take, if◌then◌else◌, Outcome, done,
  ◌>>=◌,
}
use ytorrent.Net.Outgoing.{OutgoingMessage, bytes_of, size_of}

-- The function objects that src/torrent/peer.cpp installs, each bound to the connection's own peer.
pub data ReadCallback : Type 0 where
  outgoing_handshake incoming_handshake message_length message_body : ReadCallback

pub data ConnectCallback : Type 0 where
  start_handshake : ConnectCallback

pub data ErrorCallback : Type 0 where
  peer_error : ErrorCallback

-- `is_open` and `remote` are what the socket answers: `remote` is the address of the other end as
-- getIP returns it, in network order, and `none` where remote_endpoint reports an error.
-- `reads` holds the sizes of the reads that asio was asked for and has not completed, `resolving` the
-- host and port that it was asked to resolve, `connecting` whether it was asked to connect, `written` the
-- buffers handed to asio for writing, in order.
pub record Connection : Type 0 where
  pub is_open : Bool
  pub remote : Option ℕ
  pub read_cb : Option ReadCallback
  pub conn_cb : Option ConnectCallback
  pub error_cb : Option ErrorCallback
  pub input_stream : List ℕ
  pub reads : List ℕ
  pub resolving : Option (List ℕ × List ℕ)
  pub connecting : Bool
  pub written : List (List ℕ)

unfoldable pub new_connection : Connection
new_connection = record {
  is_open = false;
  remote = none;
  read_cb = none;
  conn_cb = none;
  error_cb = none;
  input_stream = [];
  reads = [];
  resolving = none;
  connecting = false;
  written = [];
}

unfoldable pub is_connected : Connection → Bool
is_connected c = c.is_open

unfoldable pub close : Connection → Connection
unfolding is_connected
close c = if is_connected c then record c { is_open = false } else c

unfoldable pub connect : List ℕ → List ℕ → ConnectCallback → Connection → Connection
connect host port cb c = record c { conn_cb = some cb; resolving = some (host, port) }

unfoldable pub read : ℕ → ReadCallback → Connection → Connection
unfolding is_connected
read bytes rc c =
    if is_connected c then record c { read_cb = some rc; reads = c.reads ++ bytes ∷ [] } else c

unfoldable pub write : List ℕ → ℕ → Connection → Connection
unfolding is_connected
write bytes size c =
    if is_connected c then record c { written = c.written ++ take size bytes ∷ [] } else c

unfoldable pub write_message : OutgoingMessage → Connection → Outcome Connection
unfolding bytes_of size_of write
write_message om c = do bytes ← bytes_of om; done (write bytes (size_of om) c)

or_zero : Option ℕ → ℕ
or_zero none = 0
or_zero (some ip) = ip

-- 0 stands for an unknown address.
unfoldable pub get_ip : Connection → ℕ
unfolding is_connected or_zero
get_ip c = if is_connected c then or_zero c.remote else 0

unfoldable pub set_error_callback : Option ErrorCallback → Connection → Connection
set_error_callback cb c = record c { error_cb = cb }

unfoldable pub reset_all_callbacks : Connection → Connection
reset_all_callbacks c = record c { read_cb = none; conn_cb = none; error_cb = none }
