-- ===== src/Base/Bits.antt =====
-- `bit_or` of two numbers that share no binary digit, and `bit_and` with a mask.
use Prim.Native.Nat.{digits, bit_or-bitwise, bit_and-bitwise}
use ytorrent.Base.{
  ℕ, zero, suc, ◌+◌, ◌*◌, ◌/◌, ◌%◌, ◌^◌, ◌≤◌, ◌<◌, min, max, bit_or, bit_and, ◌≡◌, refl, ap, arith,
}
use native.Mathlib.Nat.{pow-suc}

pub bit_or-zero_left : (y : ℕ) → bit_or 0 y ≡ y
bit_or-zero_left y = bit_or-bitwise 0 y

-- Fuel that exceeds the first number does not change the digits.
more_fuel : (x y k l : ℕ) → x ≤ k → x ≤ l → digits (λ z. z) max k x y ≡ digits (λ z. z) max l x y
more_fuel (suc x) y (suc k) (suc l) below under =
    let low = more_fuel (suc x / 2) (y / 2) k l (omega arith) (omega arith) in omega (arith, low)
more_fuel zero y zero zero below under = refl
more_fuel zero y (suc k) zero below under = refl
more_fuel zero y zero (suc l) below under = refl
more_fuel zero y (suc k) (suc l) below under = refl
more_fuel (suc x) y zero l below under = absurd (omega arith)
more_fuel (suc x) y (suc k) zero below under = absurd (omega arith)

-- The lowest digit of `bit_or`.
bit_or_step : (x y : ℕ) → bit_or x y ≡ bit_or (x / 2) (y / 2) * 2 + max (x % 2) (y % 2)
bit_or_step (suc x) y =
    let halves = bit_or-bitwise (suc x / 2) (y / 2) in
    let fuel = more_fuel (suc x / 2) (y / 2) x (suc x / 2) (omega arith) (omega arith) in
    omega (arith, bit_or-bitwise (suc x) y, halves, fuel)
bit_or_step zero y = omega (arith, bit_or-zero_left (y / 2), bit_or-zero_left y)

below_fuel : (k x : ℕ) → x ≤ k → bit_or x 0 ≡ x
below_fuel (suc k) (suc x) below =
    let low = below_fuel k (suc x / 2) (omega arith) in omega (arith, bit_or_step (suc x) 0, low)
below_fuel zero (suc x) below = absurd (omega arith)
below_fuel k zero below = refl

pub bit_or-zero : (x : ℕ) → bit_or x 0 ≡ x
bit_or-zero x = below_fuel x x (omega arith)

half_double : (t : ℕ) → t * 2 / 2 ≡ t
half_double t = omega arith

twice_pow : (a k : ℕ) → a * 2 ^ suc k ≡ a * 2 ^ k * 2
twice_pow a k = rw (pow-suc 2 k) (omega arith)

bit_or_double_left : (t b : ℕ) → bit_or (t * 2) b ≡ bit_or t (b / 2) * 2 + b % 2
bit_or_double_left t b =
    omega (arith, bit_or_step (t * 2) b, ap (λ (x : ℕ). bit_or x (b / 2)) (half_double t))

bit_or_double_right : (b t : ℕ) → bit_or b (t * 2) ≡ bit_or (b / 2) t * 2 + b % 2
bit_or_double_right b t =
    omega (arith, bit_or_step b (t * 2), ap (λ (x : ℕ). bit_or (b / 2) x) (half_double t))

-- `(a << k) | b` is a sum where `b` has only `k` digits.
pub bit_or_shifted : (k a b : ℕ) → b < 2 ^ k → bit_or (a * 2 ^ k) b ≡ a * 2 ^ k + b
bit_or_shifted zero a zero h = omega (arith, bit_or-zero (a * 1))
bit_or_shifted zero a (suc b) h = absurd (omega arith)
bit_or_shifted (suc k) a b h = rw (twice_pow a k) (
    omega (
      arith,
      bit_or_double_left (a * 2 ^ k) b,
      bit_or_shifted k a (b / 2) (omega (arith, pow-suc 2 k)),
    ))

-- `b | (a << k)`.
pub shifted_bit_or : (k a b : ℕ) → b < 2 ^ k → bit_or b (a * 2 ^ k) ≡ a * 2 ^ k + b
shifted_bit_or zero a zero h = omega (arith, bit_or-zero_left (a * 1))
shifted_bit_or zero a (suc b) h = absurd (omega arith)
shifted_bit_or (suc k) a b h = rw (twice_pow a k) (
    omega (
      arith,
      bit_or_double_right b (a * 2 ^ k),
      shifted_bit_or k a (b / 2) (omega (arith, pow-suc 2 k)),
    ))

-- Halved `k` times.
abbrev pub half : ℕ → ℕ → ℕ
half zero a = a
half (suc k) a = half k (a / 2)

same_digits : (x y k l : ℕ) → x ≤ k → x ≤ l → digits (λ _. 0) min k x y ≡ digits (λ _. 0) min l x y
same_digits (suc x) y (suc k) (suc l) below under =
    let low = same_digits (suc x / 2) (y / 2) k l (omega arith) (omega arith) in omega (arith, low)
same_digits zero y zero zero below under = refl
same_digits zero y (suc k) zero below under = refl
same_digits zero y zero (suc l) below under = refl
same_digits zero y (suc k) (suc l) below under = refl
same_digits (suc x) y zero l below under = absurd (omega arith)
same_digits (suc x) y (suc k) zero below under = absurd (omega arith)

bit_and_zero_left : (y : ℕ) → bit_and 0 y ≡ 0
bit_and_zero_left y = bit_and-bitwise 0 y

-- The lowest digit of `bit_and`.
lowest_digit : (x y : ℕ) → bit_and x y ≡ bit_and (x / 2) (y / 2) * 2 + min (x % 2) (y % 2)
lowest_digit zero y = omega (arith, bit_and_zero_left y, bit_and_zero_left (y / 2))
lowest_digit (suc x) y =
    let halves = bit_and-bitwise (suc x / 2) (y / 2) in
    let fuel = same_digits (suc x / 2) (y / 2) x (suc x / 2) (omega arith) (omega arith) in
    omega (arith, bit_and-bitwise (suc x) y, halves, fuel)

half_odd : (m : ℕ) → (m * 2 + 1) / 2 ≡ m
half_odd m = omega arith

bit_and_double : (a m : ℕ) → bit_and a (m * 2) ≡ bit_and (a / 2) m * 2
bit_and_double a m =
    omega (arith, lowest_digit a (m * 2), ap (λ (y : ℕ). bit_and (a / 2) y) (half_double m))

bit_and_odd : (a m : ℕ) → bit_and a (m * 2 + 1) ≡ bit_and (a / 2) m * 2 + a % 2
bit_and_odd a m =
    omega (arith, lowest_digit a (m * 2 + 1), ap (λ (y : ℕ). bit_and (a / 2) y) (half_odd m))

-- A mask that is shifted picks digits further up.
pub bit_and_shifted : (k a m : ℕ) → bit_and a (m * 2 ^ k) ≡ bit_and (half k a) m * 2 ^ k
bit_and_shifted zero a m =
    omega (arith, ap (λ (y : ℕ). bit_and a y) {x = m * 1} {y = m} (omega arith))
bit_and_shifted (suc k) a m =
    rw (twice_pow m k, bit_and_double a (m * 2 ^ k), bit_and_shifted k (a / 2) m)
      (omega (arith, twice_pow (bit_and (half k (a / 2)) m) k))

bit_and_none : (k a : ℕ) → a ≤ k → bit_and a 0 ≡ 0
bit_and_none k zero h = bit_and_zero_left 0
bit_and_none zero (suc a) h = absurd (omega arith)
bit_and_none (suc k) (suc a) h =
    omega (arith, lowest_digit (suc a) 0, bit_and_none k (suc a / 2) (omega arith))

-- The lowest byte.
pub bit_and_byte : (a : ℕ) → bit_and a 255 ≡ a % 256
bit_and_byte a =
    let h1 = a / 2 in
    let h2 = a / 2 / 2 in
    let h3 = a / 2 / 2 / 2 in
    let h4 = a / 2 / 2 / 2 / 2 in
    omega (
      arith,
      bit_and_odd a 127,
      bit_and_odd h1 63,
      bit_and_odd h2 31,
      bit_and_odd h3 15,
      bit_and_odd h4 7,
      bit_and_odd (h4 / 2) 3,
      bit_and_odd (h4 / 2 / 2) 1,
      bit_and_odd (h4 / 2 / 2 / 2) 0,
      bit_and_none (h4 / 2 / 2 / 2 / 2) (h4 / 2 / 2 / 2 / 2) (omega arith),
    )
