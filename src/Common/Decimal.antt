-- ===== src/Common/Decimal.antt =====
-- Decimal texts: `split`, `padEnd`, the value of a text of digits (`BigInt`) and the printing of a
-- bigint (`toString`).
pub mod Laws
use Prim.Native.Nat.{ℕ, zero, suc, ◌+◌, ◌-◌, ◌*◌, ◌/◌, ◌%◌}
use mathlib.Core.Bool.{Bool, true, false, ◌&&◌}
use mathlib.Core.List.{List, [], ◌∷◌, ◌++◌}
use agentlily_runtime.Common.Lists.{length}
use agentlily_runtime.Common.Tests.{ltb, leb, ◌==◌, if◌then◌else◌}
use agentlily_runtime.Common.Texts.{Text}

-- `\d`
unfoldable pub is_digit : ℕ → Bool
is_digit c = leb b'0' c && leb c b'9'

abbrev pub cons_first : ℕ → List Text → List Text
cons_first c [] = (c ∷ []) ∷ []
cons_first c (s ∷ parts) = (c ∷ s) ∷ parts

-- `value.split(separator)` at a separator of one code unit.
unfoldable pub split : ℕ → Text → List Text
split separator [] = [] ∷ []
split separator (c ∷ s) =
    let parts = split separator s in if c == separator then [] ∷ parts else cons_first c parts

abbrev pub replicate : ℕ → ℕ → Text
replicate zero c = []
replicate (suc n) c = c ∷ replicate n c

-- `value.padEnd(width, c)`
unfoldable pub pad_end : Text → ℕ → ℕ → Text
pad_end s width c = s ++ replicate (width - length s) c

-- The value of a text of digits, after those read so far.
unfoldable pub value_from : ℕ → Text → ℕ
value_from acc [] = acc
value_from acc (c ∷ s) = value_from (acc * 10 + (c - b'0')) s

-- `BigInt(digits)`, for a text of digits.
unfoldable pub big_int : Text → ℕ
unfolding value_from
big_int s = value_from 0 s

-- The last `width` digits of a number.
unfoldable pub fixed_digits : ℕ → ℕ → Text
fixed_digits zero n = []
fixed_digits (suc width) n = fixed_digits width (n / 10) ++ (b'0' + n % 10) ∷ []

unfoldable pub digits_within : ℕ → ℕ → Text
digits_within zero n = []
digits_within (suc fuel) n =
    let front = digits_within fuel (n / 10) in
    (if ltb n 10 then [] else front) ++ (b'0' + n % 10) ∷ []

-- `value.toString()` of a bigint that is not negative; it has at most `value + 1` digits.
unfoldable pub decimal : ℕ → Text
unfolding digits_within
decimal n = digits_within (suc n) n
