-- ===== src/Outstanding.antt =====
-- How many operations a connection has asked asio for, src/net/connection.cpp: two reads of one socket must
-- not overlap, and the callbacks of a Connection serve one operation.
pub mod Peers
pub mod Pieces
pub mod Messages
pub mod Run
use ytorrent.Base.{ℕ, ◌+◌, ◌≤◌, ◌≡◌, Option, some, none, Bool, if◌then◌else◌, length}
use ytorrent.Net.Link.{Connection}
use ytorrent.Client.{Client}

abbrev pub count_some : {A : Type 0} → Option A → ℕ
count_some none = 0
count_some (some a) = 1

-- The resolve, the connect and the reads that have not completed.
abbrev pub pending : Connection → ℕ
pending k = count_some k.resolving + (if k.connecting then 1 else 0) + length k.reads

-- No connection waits for more than one operation.
abbrev pub Calm : Client → Type 0
Calm c = (q : ℕ) → pending (c.peers q).conn ≤ 1

-- And that of `p` waits for none.
abbrev pub Idle : ℕ → Client → Type 0
Idle p c = Calm c × (pending (c.peers p).conn ≡ 0)
