-- ===== src/Base/Fallible.antt =====
-- What a call of C++ code comes to: a value, an exception that leaves the call, or undefined
-- behaviour, such as a read past the end of a buffer.
use mathlib.Core.Path.{◌≡◌, refl, subst}
use mathlib.Core.Bool.{Bool, true, false}
use mathlib.Core.Logic.{◌⊎◌, inl, inr}

-- The exceptions that the program's code can raise or let through.
pub data Exception : Type 0 where
  out_of_range fseek_failed fwrite_failed decoding_failed bind_failed : Exception

pub data Outcome {ℓ} (A : Type ℓ) : Type ℓ where
  done : A → Outcome A
  thrown : Exception → Outcome A
  undefined : Outcome A

infixl 5 ◌>>=◌
abbrev pub ◌>>=◌ {ℓ κ} : {A : Type ℓ} {B : Type κ} → Outcome A → (A → Outcome B) → Outcome B
done a >>= f = f a
thrown e >>= f = thrown e
undefined >>= f = undefined

pub >>=-assoc {ℓ κ μ} :
    {A : Type ℓ} {B : Type κ} {C : Type μ} (m : Outcome A) (f : A → Outcome B) (g : B → Outcome C)
    → (m >>= f >>= g) ≡ (m >>= λ a. f a >>= g)
>>=-assoc (done a) f g = refl
>>=-assoc (thrown e) f g = refl
>>=-assoc undefined f g = refl

-- A successful chain is a chain of successes.
pub >>=-eq-done {ℓ κ} :
    {A : Type ℓ} {B : Type κ} (m : Outcome A) (f : A → Outcome B) {b : B}
    → (m >>= f) ≡ done b
    → (a : A) × (m ≡ done a) × (f a ≡ done b)
>>=-eq-done (done a) f h = (a, refl, h)
>>=-eq-done (thrown e) f h = cc
>>=-eq-done undefined f h = cc

-- The cases of a value that is computed.
pub Outcome-cases {ℓ} :
    {A : Type ℓ} (m : Outcome A)
    → ((a : A) × (m ≡ done a)) ⊎ ((e : Exception) × (m ≡ thrown e)) ⊎ (m ≡ undefined)
Outcome-cases (done a) = inl (a, refl)
Outcome-cases (thrown e) = inr (inl (e, refl))
Outcome-cases undefined = inr (inr refl)

-- The result satisfies `P`, if there is one.
abbrev pub Ensures {ℓ κ} : {A : Type ℓ} → (A → Type κ) → Outcome A → Type κ
Ensures P (done a) = P a
Ensures P (thrown e) = Unit
Ensures P undefined = Unit

pub >>=-Ensures {ℓ κ μ} :
    {A : Type ℓ} {B : Type κ} (P : B → Type μ) (m : Outcome A) (f : A → Outcome B)
    → ((a : A) → m ≡ done a → Ensures P (f a))
    → Ensures P (m >>= f)
>>=-Ensures P (done a) f h = h a refl
>>=-Ensures P (thrown e) f h = tt
>>=-Ensures P undefined f h = tt

pub Ensures-done {ℓ κ} :
    {A : Type ℓ} (P : A → Type κ) (m : Outcome A) {a : A} → m ≡ done a → Ensures P m → P a
Ensures-done P m {a} e h = subst (Ensures P) e h

pub Ensures-map {ℓ κ μ} :
    {A : Type ℓ} (P : A → Type κ) (Q : A → Type μ) (m : Outcome A)
    → ((a : A) → P a → Q a)
    → Ensures P m
    → Ensures Q m
Ensures-map P Q (done a) h p = h a p
Ensures-map P Q (thrown e) h p = tt
Ensures-map P Q undefined h p = tt

pub Ensures-both {ℓ κ μ} :
    {A : Type ℓ} (P : A → Type κ) (Q : A → Type μ) (m : Outcome A)
    → Ensures P m
    → Ensures Q m
    → Ensures (λ a. P a × Q a) m
Ensures-both P Q (done a) p q = (p, q)
Ensures-both P Q (thrown e) p q = tt
Ensures-both P Q undefined p q = tt

-- What the first call ensures may be used for the second.
pub Ensures-then {ℓ κ μ ν} :
    {A : Type ℓ} {B : Type κ} (P : A → Type μ) (Q : B → Type ν) (m : Outcome A) (f : A → Outcome B)
    → Ensures P m
    → ((a : A) → P a → Ensures Q (f a))
    → Ensures Q (m >>= f)
Ensures-then P Q (done a) f p h = h a p
Ensures-then P Q (thrown e) f p h = tt
Ensures-then P Q undefined f p h = tt

pub done-injective {ℓ} : {A : Type ℓ} {a b : A} → done a ≡ done b → a ≡ b
done-injective e = cc

abbrev pub is_done {ℓ} : {A : Type ℓ} → Outcome A → Bool
is_done (done a) = true
is_done (thrown e) = false
is_done undefined = false

abbrev pub get_or_default {ℓ} : {A : Type ℓ} → Outcome A → A → A
get_or_default (done a) d = a
get_or_default (thrown e) d = d
get_or_default undefined d = d

pub is_done-eq {ℓ} :
    {A : Type ℓ} (m : Outcome A) (d : A) → is_done m ≡ true → m ≡ done (get_or_default m d)
is_done-eq (done a) d e = refl
is_done-eq (thrown x) d e = absurd (cc e)
is_done-eq undefined d e = absurd (cc e)
