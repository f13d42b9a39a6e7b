-- ===== src/Utils/Text/Urls.antt =====
-- src/utils/utils.cpp: what urlEncode's output is, and that nothing of the input is lost.
use ytorrent.Base.{
  inl, inr, ap, ap₂, ◌⊎◌, ℕ, ◌+◌, ◌-◌, ◌*◌, ◌/◌, ◌%◌, ◌<◌, ◌≤◌, ◌≡◌, refl, List, [], ◌∷◌, true,
  false, ◌==◌, ltb, if◌then◌else◌, All, Bool-cases, arith,
}
use ytorrent.Utils.Text.{is_unreserved, is_alnum, hex_digit, url_encode}

-- The value of a hexadecimal digit.
unfoldable digit_value : ℕ → ℕ
digit_value h = if ltb h b'A' then h - b'0' else h - b'A' + 10

-- What a server makes of an encoded text.
unfoldable pub url_decode : List ℕ → List ℕ
unfolding digit_value
url_decode [] = []
url_decode (c ∷ []) = c ∷ []
url_decode (c ∷ h ∷ []) = c ∷ h ∷ []
url_decode (c ∷ h ∷ l ∷ rest) =
    let plain = url_decode (h ∷ l ∷ rest) in
    let after = url_decode rest in
    if c == b'%' then (digit_value h * 16 + digit_value l) ∷ after else c ∷ plain

unreserved_not_percent : (c : ℕ) → is_unreserved c ≡ true → (c == b'%') ≡ false
unfolding is_unreserved is_alnum
unreserved_not_percent c e = ground arith

digit_value-hex_digit : (d : ℕ) → d < 16 → digit_value (hex_digit d) ≡ d
unfolding digit_value hex_digit
digit_value-hex_digit d h = ground arith

url_decode-plain :
    (c : ℕ) (cs : List ℕ) → (c == b'%') ≡ false → url_decode (c ∷ cs) ≡ c ∷ url_decode cs
unfolding url_decode
url_decode-plain c [] e = refl
url_decode-plain c (h ∷ []) e = refl
url_decode-plain c (h ∷ l ∷ rest) e = rw e refl

url_decode-percent :
    (h l : ℕ) (cs : List ℕ)
    → url_decode (b'%' ∷ h ∷ l ∷ cs) ≡ (digit_value h * 16 + digit_value l) ∷ url_decode cs
unfolding url_decode
url_decode-percent h l cs = refl

url_decode-nil : url_decode [] ≡ []
unfolding url_decode
url_decode-nil = refl

-- For a text of bytes, a decoder that reads %XX as the byte XX gives urlEncode's input back.
pub url_decode-url_encode : (s : List ℕ) → All (λ c. c < 256) s → url_decode (url_encode s) ≡ s
unfolding url_encode
url_decode-url_encode [] h = url_decode-nil
url_decode-url_encode (c ∷ cs) (small, rest) = elim (Bool-cases (is_unreserved c)) [
  | inl e ↦
      rw (e, url_decode-plain c (url_encode cs) (unreserved_not_percent c e))
        (ap (λ t. c ∷ t) (url_decode-url_encode cs rest))
  | inr e ↦
      rw
        (
          e,
          url_decode-percent (hex_digit (c / 16)) (hex_digit (c % 16)) (url_encode cs),
          digit_value-hex_digit (c / 16) (omega arith),
          digit_value-hex_digit (c % 16) (omega arith),
        )
        (ap₂ (λ b t. b ∷ t) (omega arith) (url_decode-url_encode cs rest))
]

-- A character that may stand in a query string: a letter, a digit, one of - _ . ~, or the %.
abbrev pub IsQuerySafe : ℕ → Type 0
IsQuerySafe c =
    ((b'a' ≤ c) × (c ≤ b'z'))
    ⊎ ((b'A' ≤ c) × (c ≤ b'Z'))
    ⊎ ((b'0' ≤ c) × (c ≤ b'9'))
    ⊎ (c ≡ b'-')
    ⊎ (c ≡ b'_')
    ⊎ (c ≡ b'.')
    ⊎ (c ≡ b'~')
    ⊎ (c ≡ b'%')

is_unreserved-IsQuerySafe : (c : ℕ) → is_unreserved c ≡ true → IsQuerySafe c
unfolding is_unreserved is_alnum
is_unreserved-IsQuerySafe c e = ground arith

hex_digit-IsQuerySafe : (d : ℕ) → d < 16 → IsQuerySafe (hex_digit d)
unfolding hex_digit
hex_digit-IsQuerySafe d h = ground arith

percent_IsQuerySafe : IsQuerySafe b'%'
percent_IsQuerySafe = ground arith

-- For a text of bytes, each character of urlEncode's output is a letter, a digit, a minus sign, an
-- underscore, a dot, a tilde, or the percent sign.
pub url_encode-IsQuerySafe : (s : List ℕ) → All (λ c. c < 256) s → All IsQuerySafe (url_encode s)
unfolding url_encode
url_encode-IsQuerySafe [] h = tt
url_encode-IsQuerySafe (c ∷ cs) (small, rest) = elim (Bool-cases (is_unreserved c)) [
  | inl e ↦ rw e (is_unreserved-IsQuerySafe c e, url_encode-IsQuerySafe cs rest)
  | inr e ↦ rw e (
    percent_IsQuerySafe,
    (
      hex_digit-IsQuerySafe (c / 16) (omega arith),
      (hex_digit-IsQuerySafe (c % 16) (omega arith), url_encode-IsQuerySafe cs rest),
    ),
  )
]
