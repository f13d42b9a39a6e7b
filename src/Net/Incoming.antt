-- ===== src/Net/Incoming.antt =====
-- src/net/incomingmessage.hpp: a cursor over the bytes of a message.
use ytorrent.Base.{
  ℕ, ◌+◌, ◌%◌, ◌^◌, List, [], ◌∷◌, Option, some, none, length, take, drop, ltb, leb, if◌then◌else◌,
  Outcome, done, undefined, ◌>>=◌,
}
use ytorrent.Utils.Transcoder.{read_as_be16, read_as_be32, read_as_be64}

-- `data_buffer` holds the bytes from the pointer to the end of the buffer that it points into.
pub record IncomingMessage : Type 0 where
  pub data_buffer : List ℕ
  pub buff_size : ℕ
  pub read_index : ℕ

abbrev pub incoming_message : List ℕ → ℕ → IncomingMessage
incoming_message bytes size = record { data_buffer = bytes; buff_size = size; read_index = 0 }

unfoldable pub get_size : IncomingMessage → ℕ
get_size m = m.buff_size

unfoldable set_data : List ℕ → IncomingMessage → IncomingMessage
set_data d m = record m { data_buffer = d }

unfoldable set_size : ℕ → IncomingMessage → IncomingMessage
set_size size m = record m { buff_size = size }

-- `&dataBuffer[readIndex]`.
unfoldable pub get_buffer : IncomingMessage → List ℕ
get_buffer m = drop m.read_index m.data_buffer

-- `readIndex` is a uint32_t.
unfoldable pub advance : ℕ → IncomingMessage → IncomingMessage
advance n m = record m { read_index = (m.read_index + n) % 2 ^ 32 }

-- A null pointer is `none`. `memcpy` past the end of the source is undefined.
unfoldable pub cpy_buffer : ℕ → IncomingMessage → Outcome (Option (List ℕ))
cpy_buffer size m =
    if ltb m.buff_size ((m.read_index + size) % 2 ^ 64)
    then done none
    else if leb size (length (drop m.read_index m.data_buffer))
    then done (some (take size (drop m.read_index m.data_buffer)))
    else undefined

first_byte : List ℕ → Outcome ℕ
first_byte [] = undefined
first_byte (b ∷ _) = done b

unfoldable pub extract_next_byte : IncomingMessage → Outcome (ℕ × IncomingMessage)
unfolding first_byte get_buffer advance
extract_next_byte m = do tmp ← first_byte (get_buffer m); done (tmp, advance 1 m)

unfoldable pub extract_next_u16 : IncomingMessage → Outcome (ℕ × IncomingMessage)
unfolding get_buffer advance
extract_next_u16 m = do tmp ← read_as_be16 (get_buffer m); done (tmp, advance 2 m)

unfoldable pub extract_next_u32 : IncomingMessage → Outcome (ℕ × IncomingMessage)
unfolding get_buffer advance
extract_next_u32 m = do tmp ← read_as_be32 (get_buffer m); done (tmp, advance 4 m)

unfoldable pub extract_next_u64 : IncomingMessage → Outcome (ℕ × IncomingMessage)
unfolding get_buffer advance
extract_next_u64 m = do tmp ← read_as_be64 (get_buffer m); done (tmp, advance 8 m)
