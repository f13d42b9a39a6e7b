-- ===== src/Utils/Text.antt =====
-- src/utils/utils.cpp: texts as lists of ASCII codes.
pub mod Urls
pub mod Decimal
pub mod Address
use mathlib.Core.WellFounded.{Acc}
use mathlib.Core.Logic.{dite}
use ytorrent.Base.{
  ℕ, ◌+◌, ◌-◌, ◌≤◌, ◌/◌, ◌%◌, ◌^◌, ◌<◌, bit_and, List, [], ◌∷◌, ◌++◌, Bool, ◌&&◌, ◌||◌, ◌==◌, leb,
  ltb, if◌then◌else◌, dec_le, arith,
}
use ytorrent.Base.Order.{lt_wf}

tenth_shrinks : (n : ℕ) → 10 ≤ n → n / 10 < n
tenth_shrinks n h = omega arith

digits_acc : (n : ℕ) → Acc ◌<◌ n → List ℕ
digits_acc n (Acc.intro _ smaller) =
    dite (dec_le 10 n)
      (λ more.
        digits_acc (n / 10) (smaller (n / 10) (tenth_shrinks n more)) ++ (b'0' + n % 10) ∷ [])
      (λ _. (b'0' + n) ∷ [])

-- std::to_string of an unsigned number.
unfoldable pub to_string : ℕ → List ℕ
unfolding digits_acc tenth_shrinks lt_wf dec_le
to_string n = digits_acc n (lt_wf.apply n)

-- isalnum in the "C" locale. A char above 127 is negative, and none of these.
unfoldable pub is_alnum : ℕ → Bool
is_alnum c = (leb b'0' c && leb c b'9') || (leb b'A' c && leb c b'Z') || (leb b'a' c && leb c b'z')

unfoldable pub is_unreserved : ℕ → Bool
unfolding is_alnum
is_unreserved c = is_alnum c || c == b'-' || c == b'_' || c == b'.' || c == b'~'

-- A digit under std::hex and std::uppercase.
unfoldable pub hex_digit : ℕ → ℕ
hex_digit d = if ltb d 10 then b'0' + d else b'A' + (d - 10)

unfoldable pub url_encode : List ℕ → List ℕ
unfolding is_unreserved hex_digit
url_encode [] = []
url_encode (c ∷ cs) =
    (if is_unreserved c then c ∷ [] else b'%' ∷ hex_digit (c / 16) ∷ hex_digit (c % 16) ∷ [])
    ++ url_encode cs

-- The octets of the address, the lowest byte first.
unfoldable pub parse_ip : ℕ → List ℕ
parse_ip ip =
    let byte3 = bit_and ip 0xFF000000 / 2 ^ 24 % 256 in
    let byte2 = bit_and ip 0x00FF0000 / 2 ^ 16 % 256 in
    let byte1 = bit_and ip 0x0000FF00 / 2 ^ 8 % 256 in
    let byte0 = bit_and ip 0x000000FF % 256 in
    to_string byte0
    ++ (b'.' ∷ (to_string byte1 ++ (b'.' ∷ (to_string byte2 ++ (b'.' ∷ to_string byte3)))))

-- Two digits at least.
pad_two : ℕ → List ℕ
pad_two n = if ltb n 10 then b'0' ∷ to_string n else to_string n

unfoldable pub format_time : ℕ → List ℕ
unfolding pad_two
format_time seconds = pad_two (seconds / 60) ++ (b':' ∷ pad_two (seconds % 60))
