-- ===== src/Guards.antt =====
-- src/guards/runtime-guards.ts: the assertions that the components share.
pub mod Laws
use agentlily_runtime.Common.{Text, ℕ, Bool, is_blank, leb, if◌then◌else◌}
use agentlily_runtime.Common.Value.{Unknown, str, not_str}
use agentlily_runtime.Errors.{
  Result, ok, err, runtime_error, RuntimeErrorCode, runtime_not_started, invalid_task,
  max_tool_calls_exceeded,
}

unfoldable pub assert_runtime_started : Bool → Result (Unit {0})
assert_runtime_started is_started =
    if is_started then ok tt else err (runtime_error runtime_not_started)

unfoldable pub assert_non_empty_value : Unknown → Result (Unit {0})
assert_non_empty_value (str value) =
    if is_blank value then err (runtime_error invalid_task) else ok tt
assert_non_empty_value not_str = err (runtime_error invalid_task)

-- The limit is a non-negative integer here, as the executor's constructor demands.
unfoldable pub assert_max_tool_calls : ℕ → ℕ → Result (Unit {0})
assert_max_tool_calls current max =
    if leb max current then err (runtime_error max_tool_calls_exceeded) else ok tt
