-- ===== src/Common/Value.antt =====
-- What the checks of the program see of a JavaScript number.
use Prim.Native.Nat.{ℕ}
use agentlily_runtime.Common.Texts.{Text}

-- A non-negative integer, or any other number: negative, fractional, infinite or NaN.
pub data Number : Type 0 where
  nat : ℕ → Number
  not_nat : Number

-- A value of type `unknown` where the program asks only for its text.
pub data Unknown : Type 0 where
  str : Text → Unknown
  not_str : Unknown
