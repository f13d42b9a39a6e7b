-- ===== src/Utils/Transcoder/Words.antt =====
-- What the readers of transcoder.hpp compute, in plain arithmetic.
use ytorrent.Base.{ℕ, ◌+◌, ◌*◌, ◌≡◌, List, ◌∷◌, done, arith}
use ytorrent.Base.Bits.{bit_or_shifted, shifted_bit_or}
use ytorrent.Utils.Transcoder.{IsByte, read_as_le16, read_as_le32, read_as_be16, read_as_be32}

pub read_as_be16_lem :
    (a b : ℕ) (rest : List ℕ)
    → IsByte a
    → IsByte b
    → read_as_be16 (a ∷ b ∷ rest) ≡ done (a * 256 + b)
unfolding read_as_be16
read_as_be16_lem a b rest ha hb = ground (arith, shifted_bit_or 8 a b hb)

pub read_as_le16_lem :
    (a b : ℕ) (rest : List ℕ)
    → IsByte a
    → IsByte b
    → read_as_le16 (a ∷ b ∷ rest) ≡ done (b * 256 + a)
unfolding read_as_le16
read_as_le16_lem a b rest ha hb = ground (arith, bit_or_shifted 8 b a ha)

module _ (a b c d : ℕ) (rest : List ℕ) (ha : IsByte a) (hb : IsByte b) (hc : IsByte c)
    (hd : IsByte d) where
  pub read_as_be32_lem :
      read_as_be32 (a ∷ b ∷ c ∷ d ∷ rest) ≡ done ((a * 256 + b) * 65536 + (c * 256 + d))
  unfolding read_as_be32
  read_as_be32_lem =
      rw (read_as_be16_lem c d rest hc hd, read_as_be16_lem a b (c ∷ d ∷ rest) ha hb)
        (ground (arith, shifted_bit_or 16 (a * 256 + b) (c * 256 + d) (omega arith)))

  pub read_as_le32_lem :
      read_as_le32 (a ∷ b ∷ c ∷ d ∷ rest) ≡ done ((d * 256 + c) * 65536 + (b * 256 + a))
  unfolding read_as_le32
  read_as_le32_lem =
      rw (read_as_le16_lem c d rest hc hd, read_as_le16_lem a b (c ∷ d ∷ rest) ha hb)
        (ground (arith, bit_or_shifted 16 (d * 256 + c) (b * 256 + a) (omega arith)))
