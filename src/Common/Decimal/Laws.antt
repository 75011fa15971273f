-- ===== src/Common/Decimal/Laws.antt =====
-- Reading what was printed, and the value of digits after digits.
use native.Mathlib.Nat.{pow-suc}
use agentlily_runtime.Common.{
  ℕ, zero, suc, ◌+◌, ◌-◌, ◌*◌, ◌/◌, ◌%◌, ◌^◌, ◌<◌, ◌≡◌, refl, Bool, true, not, [], ◌∷◌, ◌++◌, arith,
  length, length-append, all, Text, ltb, ◌==◌, Bool-cases, inl, inr,
}
use agentlily_runtime.Common.Decimal.{
  is_digit, split, replicate, value_from, big_int, fixed_digits, digits_within, decimal,
}

pub value_from-append :
    (acc : ℕ) (s t : Text) → value_from acc (s ++ t) ≡ value_from (value_from acc s) t
unfolding value_from
value_from-append acc [] t = refl
value_from-append acc (c ∷ s) t = value_from-append (acc * 10 + (c - b'0')) s t

pub value_from-zeros : (acc n : ℕ) → value_from acc (replicate n b'0') ≡ acc * 10 ^ n
unfolding value_from
value_from-zeros acc zero = omega arith
value_from-zeros acc (suc n) = rw (value_from-zeros (acc * 10 + 0) n, pow-suc 10 n) (grind arith)

pub value_from-fixed_digits :
    (width acc n : ℕ)
    → n < 10 ^ width
    → value_from acc (fixed_digits width n) ≡ acc * 10 ^ width + n
unfolding fixed_digits value_from
value_from-fixed_digits zero acc n h = omega arith
value_from-fixed_digits (suc width) acc n h =
    rw
      (
        value_from-append acc (fixed_digits width (n / 10)) ((b'0' + n % 10) ∷ []),
        value_from-fixed_digits width acc (n / 10) (omega (arith, pow-suc 10 width)),
        pow-suc 10 width,
      )
      (grind arith)

pub length-fixed_digits : (width n : ℕ) → length (fixed_digits width n) ≡ width
unfolding fixed_digits
length-fixed_digits zero n = refl
length-fixed_digits (suc width) n = omega (
  arith,
  length-append (fixed_digits width (n / 10)) ((b'0' + n % 10) ∷ []),
  length-fixed_digits width (n / 10),
)

pub all-append :
    (p : ℕ → Bool) (s t : Text) → all p s ≡ true → all p t ≡ true → all p (s ++ t) ≡ true
all-append p [] t h k = k
all-append p (c ∷ s) t h k = ground (arith, all-append p s t)

pub is_digit-digit : (n : ℕ) → is_digit (b'0' + n % 10) ≡ true
unfolding is_digit
is_digit-digit n = ground arith

pub fixed_digits-digits : (width n : ℕ) → all is_digit (fixed_digits width n) ≡ true
unfolding fixed_digits
fixed_digits-digits zero n = refl
fixed_digits-digits (suc width) n =
    all-append is_digit (fixed_digits width (n / 10)) _ (fixed_digits-digits width (n / 10))
      (ground (arith, is_digit-digit n))

pub digits_within-digits : (fuel n : ℕ) → all is_digit (digits_within fuel n) ≡ true
unfolding digits_within
digits_within-digits zero n = refl
digits_within-digits (suc fuel) n = elim (Bool-cases (ltb n 10)) [
  | inl h ↦ rw h (ground (arith, is_digit-digit n))
  | inr h ↦ rw h (
      all-append is_digit (digits_within fuel (n / 10)) _ (digits_within-digits fuel (n / 10))
        (ground (arith, is_digit-digit n)))
]

pub value-digits_within : (fuel n : ℕ) → n < fuel → value_from 0 (digits_within fuel n) ≡ n
unfolding digits_within value_from
value-digits_within zero n h = elim h [ ]
value-digits_within (suc fuel) n h = elim (Bool-cases (ltb n 10)) [
  | inl small ↦ rw small (ground arith)
  | inr big ↦
      rw (big, value_from-append 0 (digits_within fuel (n / 10)) ((b'0' + n % 10) ∷ []))
        (ground (arith, value-digits_within fuel (n / 10)))
]

-- A printed number reads back.
pub big_int-decimal : (n : ℕ) → big_int (decimal n) ≡ n
unfolding big_int decimal
big_int-decimal n = value-digits_within (suc n) n (omega arith)

-- Text before the first separator is the first part.
pub split-append :
    (separator : ℕ) (s t : Text)
    → all (λ c. not (c == separator)) s ≡ true
    → split separator (s ++ separator ∷ t) ≡ s ∷ split separator t
unfolding split
split-append separator [] t h = ground arith
split-append separator (c ∷ s) t h = ground (arith, split-append separator s t)

pub split-none :
    (separator : ℕ) (s : Text)
    → all (λ c. not (c == separator)) s ≡ true
    → split separator s ≡ s ∷ []
unfolding split
split-none separator [] h = refl
split-none separator (c ∷ s) h = ground (arith, split-none separator s)
