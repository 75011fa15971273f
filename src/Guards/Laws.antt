-- ===== src/Guards/Laws.antt =====
-- Inversion of the assertions, for the components that call them.
use agentlily_runtime.Common.{Text, ℕ, ◌<◌, ◌≡◌, false, is_blank, arith}
use agentlily_runtime.Common.Value.{str}
use agentlily_runtime.Errors.{ok}
use agentlily_runtime.Guards.{assert_non_empty_value, assert_max_tool_calls}

pub assert_non_empty_value-blank :
    (s : Text) → assert_non_empty_value (str s) ≡ ok tt → is_blank s ≡ false
unfolding assert_non_empty_value
assert_non_empty_value-blank s h = ground arith

pub assert_max_tool_calls-lt :
    (current max : ℕ) → assert_max_tool_calls current max ≡ ok tt → current < max
unfolding assert_max_tool_calls
assert_max_tool_calls-lt current max h = ground arith
