-- ===== src/Net/Outgoing.antt =====
-- src/net/outgoingmessage.hpp: a message that is built up at its end.
use ytorrent.Base.{ℕ, List, [], ◌∷◌, ◌++◌, length, take, Outcome, done, thrown, out_of_range}
use ytorrent.Utils.Transcoder.{write_as_be16, write_as_be32, write_as_be64}

pub record OutgoingMessage : Type 0 where
  pub data_buffer : List ℕ

-- The constructor reserves `fixed_size` bytes, which changes no contents.
abbrev pub outgoing_message : ℕ → OutgoingMessage
outgoing_message fixed_size = record { data_buffer = [] }

unfoldable pub add_custom : List ℕ → ℕ → OutgoingMessage → OutgoingMessage
add_custom bytes size m = record m { data_buffer = m.data_buffer ++ take size bytes }

unfoldable pub add_u8 : ℕ → OutgoingMessage → OutgoingMessage
add_u8 byte m = record m { data_buffer = m.data_buffer ++ byte ∷ [] }

unfoldable pub add_u16 : ℕ → OutgoingMessage → OutgoingMessage
unfolding add_custom
add_u16 val = add_custom (write_as_be16 val) 2

unfoldable pub add_u32 : ℕ → OutgoingMessage → OutgoingMessage
unfolding add_custom
add_u32 val = add_custom (write_as_be32 val) 4

unfoldable pub add_u64 : ℕ → OutgoingMessage → OutgoingMessage
unfolding add_custom
add_u64 val = add_custom (write_as_be64 val) 8

from_first : List ℕ → Outcome (List ℕ)
from_first [] = thrown out_of_range
from_first (b ∷ bs) = done (b ∷ bs)

-- `&dataBuffer.at(0)`: the bytes from the first on. An empty vector has no element 0.
unfoldable pub bytes_of : OutgoingMessage → Outcome (List ℕ)
unfolding from_first
bytes_of m = from_first m.data_buffer

unfoldable pub size_of : OutgoingMessage → ℕ
size_of m = length m.data_buffer
