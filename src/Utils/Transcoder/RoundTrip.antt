-- ===== src/Utils/Transcoder/RoundTrip.antt =====
-- Reading back what transcoder.hpp wrote.
use ytorrent.Base.{
  ℕ, ◌+◌, ◌*◌, drop, refl, ◌/◌, ◌%◌, ◌^◌, ◌<◌, ◌≡◌, ap, ◌∙◌, List, ◌++◌, done, arith,
}
use ytorrent.Base.Bits.{shifted_bit_or, bit_or_shifted}
use mathlib.Core.List.{append_assoc}
use ytorrent.Utils.Transcoder.{
  read_as_le16, read_as_le32, read_as_le64, write_as_le16, write_le32, write_as_le64, read_as_be16,
  read_as_be32, read_as_be64, write_as_be16, write_as_be32, write_as_be64,
}
use ytorrent.Utils.Transcoder.Words.{
  read_as_be16_lem, read_as_be32_lem, read_as_le16_lem, read_as_le32_lem,
}

-- Every uint32_t that writeAsBE32 stored is read back by readAsBE32, whatever bytes follow.
pub read_as_be32-write_as_be32 :
    (v : ℕ) (rest : List ℕ) → v < 2 ^ 32 → read_as_be32 (write_as_be32 v ++ rest) ≡ done v
unfolding write_as_be32
read_as_be32-write_as_be32 v rest h =
    read_as_be32_lem (v / 2 ^ 24 % 256) (v / 2 ^ 16 % 256) (v / 2 ^ 8 % 256) (v % 256) rest
      (omega arith) (omega arith) (omega arith) (omega arith)
    ∙ ap done (omega arith)

-- writeAsBE16 keeps only the low byte of its value: what is read back is the value modulo 256.
pub read_as_be16-write_as_be16 :
    (v : ℕ) (rest : List ℕ) → read_as_be16 (write_as_be16 v ++ rest) ≡ done (v % 256)
unfolding write_as_be16
read_as_be16-write_as_be16 v rest =
    read_as_be16_lem (v % 256 / 2 ^ 8) (v % 256) rest (omega arith) (omega arith)
    ∙ ap done (omega arith)

pub read_as_le16-write_as_le16 :
    (v : ℕ) (rest : List ℕ) → v < 2 ^ 16 → read_as_le16 (write_as_le16 v ++ rest) ≡ done v
unfolding write_as_le16
read_as_le16-write_as_le16 v rest h =
    read_as_le16_lem (v % 256) (v / 2 ^ 8 % 256) rest (omega arith) (omega arith)
    ∙ ap done (omega arith)

pub read_as_le32-write_le32 :
    (v : ℕ) (rest : List ℕ) → v < 2 ^ 32 → read_as_le32 (write_le32 v ++ rest) ≡ done v
unfolding write_le32
read_as_le32-write_le32 v rest h =
    read_as_le32_lem (v % 2 ^ 16 % 256) (v % 2 ^ 16 / 2 ^ 8 % 256) (v / 2 ^ 16 % 2 ^ 16 % 256)
      (v / 2 ^ 16 % 2 ^ 16 / 2 ^ 8 % 256) rest (omega arith) (omega arith) (omega arith)
      (omega arith)
    ∙ ap done (omega arith)

-- The low and the high half of a uint64_t, each in its own four bytes.
write_as_be64-halves :
    (v : ℕ)
    → v < 2 ^ 64
    → write_as_be64 v ≡ write_as_be32 (v / 2 ^ 32) ++ write_as_be32 (v % 2 ^ 32)
unfolding write_as_be64 write_as_be32
write_as_be64-halves v h = ground arith

drop-write_as_be32 : (a : ℕ) (rest : List ℕ) → drop 4 (write_as_be32 a ++ rest) ≡ rest
unfolding write_as_be32
drop-write_as_be32 a rest = refl

read_as_be64_lem :
    (a b : ℕ) (rest : List ℕ)
    → a < 2 ^ 32
    → b < 2 ^ 32
    → read_as_be64 (write_as_be32 a ++ (write_as_be32 b ++ rest)) ≡ done (a * 2 ^ 32 + b)
unfolding read_as_be64
read_as_be64_lem a b rest ha hb =
    rw
      (
        drop-write_as_be32 a (write_as_be32 b ++ rest),
        read_as_be32-write_as_be32 b rest hb,
        read_as_be32-write_as_be32 a (write_as_be32 b ++ rest) ha,
      )
      (ap done (shifted_bit_or 32 a b hb))

-- Every uint64_t that writeAsBE64 stored is read back by readAsBE64, whatever bytes follow.
pub read_as_be64-write_as_be64 :
    (v : ℕ) (rest : List ℕ) → v < 2 ^ 64 → read_as_be64 (write_as_be64 v ++ rest) ≡ done v
read_as_be64-write_as_be64 v rest h =
    rw
      (
        write_as_be64-halves v h,
        append_assoc (write_as_be32 (v / 2 ^ 32)) (write_as_be32 (v % 2 ^ 32)) rest,
        read_as_be64_lem (v / 2 ^ 32) (v % 2 ^ 32) rest (omega arith) (omega arith),
      )
      (ap done (omega arith))

drop-write_le32 : (a : ℕ) (rest : List ℕ) → drop 4 (write_le32 a ++ rest) ≡ rest
unfolding write_le32
drop-write_le32 a rest = refl

-- Every uint64_t that writeAsLE64 stored is read back by readAsLE64, whatever bytes follow.
pub read_as_le64-write_as_le64 :
    (v : ℕ) (rest : List ℕ) → v < 2 ^ 64 → read_as_le64 (write_as_le64 v ++ rest) ≡ done v
unfolding read_as_le64 write_as_le64
read_as_le64-write_as_le64 v rest h =
    rw
      (
        append_assoc (write_le32 (v % 2 ^ 32)) (write_le32 (v / 2 ^ 32 % 2 ^ 32)) rest,
        drop-write_le32 (v % 2 ^ 32) (write_le32 (v / 2 ^ 32 % 2 ^ 32) ++ rest),
        read_as_le32-write_le32 (v / 2 ^ 32 % 2 ^ 32) rest (omega arith),
        read_as_le32-write_le32 (v % 2 ^ 32) (write_le32 (v / 2 ^ 32 % 2 ^ 32) ++ rest)
            (omega arith),
      )
      (ap done (bit_or_shifted 32 (v / 2 ^ 32 % 2 ^ 32) (v % 2 ^ 32) (omega arith) ∙ omega arith))
