-- ===== src/Utils/Transcoder.antt =====
-- src/utils/transcoder.hpp. An address is the list of the bytes from it to the end of its buffer: a
-- read past that end is undefined. A write is the list of the bytes that it stores.
pub mod Words
pub mod RoundTrip
use ytorrent.Base.{
  ℕ, ◌*◌, ◌/◌, ◌%◌, ◌^◌, ◌<◌, bit_or, List, [], ◌∷◌, ◌++◌, drop, Outcome, done, undefined, ◌>>=◌,
}

abbrev pub IsByte : ℕ → Type 0
IsByte b = b < 256

unfoldable pub read_as_le16 : List ℕ → Outcome ℕ
read_as_le16 (b0 ∷ b1 ∷ _) = done (bit_or (b1 * 2 ^ 8) b0 % 2 ^ 16)
read_as_le16 _ = undefined

unfoldable pub read_as_le32 : List ℕ → Outcome ℕ
read_as_le32 addr = do
  high ← read_as_le16 (drop 2 addr)
  low ← read_as_le16 addr
  done (bit_or (high * 2 ^ 16) low)

unfoldable pub read_as_le64 : List ℕ → Outcome ℕ
read_as_le64 addr = do
  high ← read_as_le32 (drop 4 addr)
  low ← read_as_le32 addr
  done (bit_or (high * 2 ^ 32) low)

unfoldable pub write_as_le16 : ℕ → List ℕ
write_as_le16 value = value % 256 ∷ value / 2 ^ 8 % 256 ∷ []

unfoldable pub write_le32 : ℕ → List ℕ
unfolding write_as_le16
write_le32 value = write_as_le16 (value % 2 ^ 16) ++ write_as_le16 (value / 2 ^ 16 % 2 ^ 16)

unfoldable pub write_as_le64 : ℕ → List ℕ
unfolding write_le32
write_as_le64 value = write_le32 (value % 2 ^ 32) ++ write_le32 (value / 2 ^ 32 % 2 ^ 32)

unfoldable pub read_as_be16 : List ℕ → Outcome ℕ
read_as_be16 (b0 ∷ b1 ∷ _) = done (bit_or b1 (b0 * 2 ^ 8) % 2 ^ 16)
read_as_be16 _ = undefined

unfoldable pub read_as_be32 : List ℕ → Outcome ℕ
read_as_be32 addr = do
  low ← read_as_be16 (drop 2 addr)
  high ← read_as_be16 addr
  done (bit_or low (high * 2 ^ 16))

unfoldable pub read_as_be64 : List ℕ → Outcome ℕ
read_as_be64 addr = do
  low ← read_as_be32 (drop 4 addr)
  high ← read_as_be32 addr
  done (bit_or low (high * 2 ^ 32))

-- `(uint8_t)value >> 8`: the cast comes before the shift.
unfoldable pub write_as_be16 : ℕ → List ℕ
write_as_be16 value = value % 256 / 2 ^ 8 ∷ value % 256 ∷ []

unfoldable pub write_as_be32 : ℕ → List ℕ
write_as_be32 value =
    value / 2 ^ 24 % 256 ∷ value / 2 ^ 16 % 256 ∷ value / 2 ^ 8 % 256 ∷ value % 256 ∷ []

unfoldable pub write_as_be64 : ℕ → List ℕ
write_as_be64 value =
    value / 2 ^ 56 % 256
    ∷ value / 2 ^ 48 % 256
    ∷ value / 2 ^ 40 % 256
    ∷ value / 2 ^ 32 % 256
    ∷ value / 2 ^ 24 % 256
    ∷ value / 2 ^ 16 % 256
    ∷ value / 2 ^ 8 % 256
    ∷ value % 256
    ∷ []
