-- ===== src/Net/Acceptor.antt =====
-- src/net/acceptor.hpp and acceptor.cpp.
use ytorrent.Base.{ℕ, ◌+◌, ◌-◌, Bool, true, false, if◌then◌else◌}

-- `is_open` is what the socket is, `accepts` how many accepts asio was asked for and has not completed.
pub record Acceptor : Type 0 where
  pub port : ℕ
  pub started : Bool
  pub is_open : Bool
  pub accepts : ℕ

unfoldable pub new_acceptor : ℕ → Acceptor
new_acceptor port = record { port = port; started = false; is_open = true; accepts = 0 }

unfoldable pub is_started : Acceptor → Bool
is_started a = a.started

-- initiateAsyncAcceptLoop. An accept on a closed socket completes with an error, which is passed over.
unfoldable pub initiate_async_accept_loop : Acceptor → Acceptor
initiate_async_accept_loop a = record a {
  started = true;
  accepts = if a.is_open then a.accepts + 1 else a.accepts;
}

-- The accepts that were asked for complete with operation_aborted, and their handler does nothing.
unfoldable pub stop : Acceptor → Acceptor
stop a = record a { started = false; is_open = false; accepts = 0 }

-- The accept handler, after the callback: the loop goes on.
unfoldable pub on_accepted : Acceptor → Acceptor
unfolding initiate_async_accept_loop
on_accepted a = initiate_async_accept_loop (record a { accepts = a.accepts - 1 })

-- The accept handler on an error.
unfoldable pub on_accept_error : Acceptor → Acceptor
on_accept_error a = record a { accepts = a.accepts - 1 }

-- Acceptor::~Acceptor, as far as asio sees it.
unfoldable destroy : Acceptor → Acceptor
unfolding is_started stop
destroy a = if is_started a then stop a else a
