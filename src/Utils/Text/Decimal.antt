-- ===== src/Utils/Text/Decimal.antt =====
-- std::to_string as src/utils/utils.cpp and src/torrent/tracker.cpp use it.
use mathlib.Core.WellFounded.{Acc}
use ytorrent.Base.{
  ℕ, ◌+◌, ◌-◌, ◌*◌, ◌/◌, ◌%◌, ◌<◌, ◌≡◌, refl, List, [], ◌∷◌, ◌++◌, dec_le, dite-elim, arith,
}
use ytorrent.Base.Order.{lt_wf}
use ytorrent.Utils.Text.{to_string, digits_acc, tenth_shrinks}

-- The number that a text of digits stands for, after the digits of `n`.
unfoldable pub read_decimal : ℕ → List ℕ → ℕ
read_decimal n [] = n
read_decimal n (c ∷ cs) = read_decimal (n * 10 + (c - b'0')) cs

read_decimal-append :
    (n : ℕ) (cs : List ℕ) (c : ℕ)
    → read_decimal n (cs ++ c ∷ []) ≡ read_decimal n cs * 10 + (c - b'0')
unfolding read_decimal
read_decimal-append n [] c = refl
read_decimal-append n (d ∷ cs) c = read_decimal-append (n * 10 + (d - b'0')) cs c

read_decimal-digits_acc : (n : ℕ) (a : Acc ◌<◌ n) → read_decimal 0 (digits_acc n a) ≡ n
unfolding digits_acc dec_le read_decimal
read_decimal-digits_acc n (Acc.intro _ smaller) =
    dite-elim (λ cs. read_decimal 0 cs ≡ n) (dec_le 10 n)
      (λ more.
        rw
          (
            read_decimal-append 0 (digits_acc (n / 10) (smaller (n / 10) (tenth_shrinks n more)))
                (b'0' + n % 10),
            read_decimal-digits_acc (n / 10) (smaller (n / 10) (tenth_shrinks n more)),
          )
          (omega arith))
      (λ less. omega arith)

-- std::to_string(n) is a decimal numeral of n.
pub read_decimal-to_string : (n : ℕ) → read_decimal 0 (to_string n) ≡ n
unfolding to_string
read_decimal-to_string n = read_decimal-digits_acc n (lt_wf.apply n)
