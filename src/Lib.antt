-- ===== src/Lib.antt =====
-- yTorrent: a BitTorrent client in C++. This library models its own code and proves what it does.
--
-- The parts. A Torrent (src/torrent/torrent.cpp, torrent.hpp) holds the pieces, the file, the counters and
-- the list of active peers. A Peer (src/torrent/peer.cpp, peer.hpp) speaks the peer protocol over a
-- Connection (src/net/connection.cpp, connection.hpp), which wraps a socket of Boost.Asio. Messages are
-- built by OutgoingMessage and taken apart by IncomingMessage (src/net), with the byte-order helpers of
-- src/utils/transcoder.hpp. The tracker (src/torrent/tracker.cpp) names addresses to connect to, an Acceptor
-- (src/net/acceptor.cpp) takes the peers that connect to us, and main.cpp parses the options, and runs the
-- download and the seeding while a second thread runs the io_context.
--
-- The files. Base: lists, tests, bits and the outcome of a call (a value, an exception, or undefined
-- behaviour). Utils: transcoder.hpp and the texts of utils.cpp, with the tracker's URL in
-- Utils.TrackerUrl. Net: Incoming and Outgoing are the two message classes, Link is what a Connection is and
-- is asked to do, Acceptor is acceptor.cpp. Client: the state of the program, the
-- records of Torrent and Peer. Torrent: Sizes (pieceSize, pieceDone, checkPieceHash), Swarm (handshaked,
-- addPeer, removePeer, the black list, Peer::disconnect and handleError), Select (selectPieceAndRequest),
-- Disk (fseek, fread and fwrite), Store (handlePieceCompleted), Serve (handleBlockRequest), Bitfield
-- (getRawBitfield), Parse (parseFile), Connect (connectToPeers) and Query (buildTrackerQuery). Peer: Send
-- (the messages that are written), Request (requestPiece, sendPieceRequest, sendCancelRequest), Messages
-- and Blocks (the cases of handleMessage), Dispatch (handle and handleMessage) and Handshake (connect and
-- authenticate). Session: the handlers of connection.cpp, and the accept callback of torrent.cpp. Events:
-- the events that the environment may bring, as a step function, and the states that they reach.
-- Tracker: Request (the text that Tracker::httpRequest sends), Response (what it makes of the answer) and
-- Announce (the Tracker object, Torrent::validateTracker, and the program's state outside the client).
-- Download: download and disconnectPeers of torrent.cpp, with Seeding (seed) and Custom (customDownload).
-- Main: main.cpp. Machine: the moves of the torrent's record, an abstract machine that the events refine.
-- Outstanding: what a connection has asked asio for. Soundness: the invariant of the whole client. Tests:
-- runs and instances. The modules below these hold proofs: Peer.Tiling and Peer.Assembly are about the
-- blocks of a piece, Peer.Tiling.Requests about the requests for them, Peer.Wire and
-- Torrent.Bitfield.Bytes about messages between two clients, with Haves, Requests, Chunks and Arrivals for
-- the kinds of messages and Whole for the blocks of a whole piece, Peer.Messages.Guards and
-- Peer.Handshake.Mutual about what a peer accepts, Utils.Text.Urls and Address about texts,
-- Torrent.Select.Rarest about the choice of a piece, Torrent.Serve.Slices about the bytes that are served,
-- Torrent.Connect.Targets and Tracker.Effect about the addresses that are contacted, Tracker.Reading and
-- Tracker.Response.Headers about answers, Torrent.Query.Bounds about the numbers of a query,
-- Utils.TrackerUrl.Grammar and Result about announce URLs, Soundness.Acceptance about a piece that arrived
-- whole, Download.Invariant, Download.Complete, Download.Listening, Download.Accepts and Main.Files about
-- whole runs.
--
-- How state and operations correspond. A shared_ptr to a Peer is the peer's number in the store
-- Client.peers; a method returns the new state. A Piece* of the queue is owned by one entry, so the queue
-- holds the pieces themselves. A std::function that is stored is a constructor of ReadCallback,
-- ConnectCallback or ErrorCallback, and Session calls the code that it stands for. A text for
-- Peer::handleError is a constructor of PeerError. Bytes and texts are lists of numbers. A method whose
-- call may throw, or read past a buffer, returns an Outcome.
--
-- Numbers. size_t, uint32_t and uint8_t are natural numbers, with the wrap-around of each sum and cast
-- written out. An int64_t that the code compares with unsigned numbers is its bit pattern. Loops over a
-- buffer recur on the number of rounds that the loop's bounds give, and the loop over the blocks of a piece
-- on the accessibility of its length. The loop over the header lines of a tracker's answer has a fuel above
-- the length of the text, and each line takes a character at least. The loops of download, seed and
-- customDownload recur on the rounds that are given, each with what the tracker's connection would deliver
-- and the completions that the other thread handles while this one sleeps; a loop that is still running
-- after them is a result of its own. The threads take turns at whole handlers.
--
-- What is taken from outside. Platform has the SHA-1 and the dynamic_bitset of Boost and the contents of a
-- new array. Metainfo is what the bencoding library found in the torrent file, FileSystem what opening
-- files gives, and a file is its bytes with a bound on its size. Exchange is what the tracker's connection
-- delivers, and Decoder the bencoding library on the body. Asio's part is the list of events: a
-- Connection records what asio was asked for, and the events complete it. A buffer that is handed to asio
-- is recorded with the bytes that it holds at that moment.
--
-- What is not modelled: the log and progress output with the speed and the ETA, which are floating point,
-- the working directory, the memory that is freed or leaked, the interleaving of the two threads within a
-- handler or a call of the tracker, and what boost::program_options makes of the arguments, which is the
-- record CommandLine. A write to the tracker that throws, which ends the process, is none of the exchanges
-- either. The std::regex of parseTrackerUrl is a matcher of its own, and Grammar relates it to
-- the expressions.
pub mod Base
pub mod Utils
pub mod Net
pub mod Client
pub mod Torrent
pub mod Peer
pub mod Session
pub mod Tracker
pub mod Download
pub mod Machine
pub mod Main
pub mod Soundness
pub mod Events
pub mod Outstanding
pub mod Tests
