-- ===== src/Net.antt =====
-- src/net: the messages and the connection. asio itself is no part of the model: what it was asked
-- for is recorded in the connection, and its completions are events that the environment chooses.
pub mod Incoming
pub mod Outgoing
pub mod Link
pub mod Acceptor
