-- ===== src/Utils/Text/Address.antt =====
-- parseIp of src/utils/utils.cpp: the text of an address, read back.
use mathlib.Core.WellFounded.{Acc}
use ytorrent.Base.{
  ℕ, ◌+◌, ◌-◌, ◌*◌, ◌/◌, ◌%◌, ◌^◌, ◌<◌, bit_and, ◌≡◌, ◌≢◌, refl, ap, ◌∙◌, List, [], ◌∷◌, ◌++◌,
  false, ◌==◌, if◌then◌else◌, All, dec_le, dite-elim, arith,
}
use ytorrent.Base.Order.{lt_wf}
use ytorrent.Base.Bits.{half, bit_and_shifted, bit_and_byte}
use ytorrent.Utils.Text.{to_string, digits_acc, tenth_shrinks, parse_ip}
use ytorrent.Utils.Text.Decimal.{read_decimal, read_decimal-to_string}

-- The numbers of a text of decimal numbers with dots between them; `n` is what was read of the first.
unfoldable pub read_dotted : ℕ → List ℕ → List ℕ
read_dotted n [] = n ∷ []
read_dotted n (c ∷ cs) =
    let dot = n ∷ read_dotted 0 cs in
    let digit = read_dotted (n * 10 + (c - b'0')) cs in if c == b'.' then dot else digit

abbrev HasNoDot : List ℕ → Type 0
HasNoDot = All (λ (c : ℕ). c ≢ b'.')

append-HasNoDot : (xs ys : List ℕ) → HasNoDot xs → HasNoDot ys → HasNoDot (xs ++ ys)
append-HasNoDot [] ys h k = k
append-HasNoDot (x ∷ xs) ys (h, hs) k = (h, append-HasNoDot xs ys hs k)

digits_acc-HasNoDot : (n : ℕ) (a : Acc ◌<◌ n) → HasNoDot (digits_acc n a)
unfolding digits_acc dec_le
digits_acc-HasNoDot n (Acc.intro _ smaller) =
    dite-elim HasNoDot (dec_le 10 n)
      (λ more.
        append-HasNoDot (digits_acc (n / 10) (smaller (n / 10) (tenth_shrinks n more)))
          ((b'0' + n % 10) ∷ [])
          (digits_acc-HasNoDot (n / 10) (smaller (n / 10) (tenth_shrinks n more)))
          ((λ e. omega arith), tt))
      (λ less. ((λ e. omega arith), tt))

to_string-HasNoDot : (n : ℕ) → HasNoDot (to_string n)
unfolding to_string
to_string-HasNoDot n = digits_acc-HasNoDot n (lt_wf.apply n)

no_dot : (c : ℕ) → c ≢ b'.' → (c == b'.') ≡ false
no_dot c h = ground arith

read_dotted-dot :
    (cs rest : List ℕ) (n : ℕ)
    → HasNoDot cs
    → read_dotted n (cs ++ (b'.' ∷ rest)) ≡ read_decimal n cs ∷ read_dotted 0 rest
unfolding read_dotted read_decimal
read_dotted-dot [] rest n h = refl
read_dotted-dot (c ∷ cs) rest n (h, hs) =
    rw (no_dot c h) (read_dotted-dot cs rest (n * 10 + (c - b'0')) hs)

read_dotted-end : (cs : List ℕ) (n : ℕ) → HasNoDot cs → read_dotted n cs ≡ read_decimal n cs ∷ []
unfolding read_dotted read_decimal
read_dotted-end [] n h = refl
read_dotted-end (c ∷ cs) n (h, hs) = rw (no_dot c h) (read_dotted-end cs (n * 10 + (c - b'0')) hs)

read_dotted-number :
    (n : ℕ) (rest : List ℕ) → read_dotted 0 (to_string n ++ (b'.' ∷ rest)) ≡ n ∷ read_dotted 0 rest
read_dotted-number n rest =
    read_dotted-dot (to_string n) rest 0 (to_string-HasNoDot n)
    ∙ ap (λ k. k ∷ read_dotted 0 rest) (read_decimal-to_string n)

half_eight : (a : ℕ) → half 8 a ≡ a / 256
half_eight a = omega arith

mask_byte : (k a : ℕ) → bit_and a (255 * 2 ^ k) ≡ half k a % 256 * 2 ^ k
mask_byte k a = bit_and_shifted k a 255 ∙ ap (λ b. b * 2 ^ k) (bit_and_byte (half k a))

byte0_of : (ip : ℕ) → bit_and ip 0xFF % 256 ≡ ip % 256
byte0_of ip = omega (arith, bit_and_byte ip)

byte1_of : (ip : ℕ) → bit_and ip 0xFF00 / 2 ^ 8 % 256 ≡ ip / 2 ^ 8 % 256
byte1_of ip = omega (arith, mask_byte 8 ip, half_eight ip)

byte2_of : (ip : ℕ) → bit_and ip 0xFF0000 / 2 ^ 16 % 256 ≡ ip / 2 ^ 16 % 256
byte2_of ip = omega (arith, mask_byte 16 ip, half_eight ip, half_eight (half 8 ip))

byte3_of : (ip : ℕ) → bit_and ip 0xFF000000 / 2 ^ 24 % 256 ≡ ip / 2 ^ 24 % 256
byte3_of ip =
    omega (
      arith,
      mask_byte 24 ip,
      half_eight ip,
      half_eight (half 8 ip),
      half_eight (half 8 (half 8 ip)),
    )

-- The text of parseIp, read as decimal numbers with dots between them, is the four bytes of the address,
-- the lowest first, which is the first in network order on a little-endian machine.
pub read_dotted-parse_ip :
    (ip : ℕ)
    → read_dotted 0 (parse_ip ip)
      ≡ ip % 2 ^ 8 ∷ ip / 2 ^ 8 % 2 ^ 8 ∷ ip / 2 ^ 16 % 2 ^ 8 ∷ ip / 2 ^ 24 % 2 ^ 8 ∷ []
unfolding parse_ip
read_dotted-parse_ip ip =
    rw (byte0_of ip, byte1_of ip, byte2_of ip, byte3_of ip)
      (rw
        (
          read_dotted-number (ip % 256),
          read_dotted-number (ip / 2 ^ 8 % 256),
          read_dotted-number (ip / 2 ^ 16 % 256),
          read_dotted-end (to_string (ip / 2 ^ 24 % 256)) 0
              (to_string-HasNoDot (ip / 2 ^ 24 % 256)),
          read_decimal-to_string (ip / 2 ^ 24 % 256),
        )
        refl)
