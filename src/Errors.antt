-- ===== src/Errors.antt =====
-- src/errors/runtime-errors.ts: the codes of `RuntimeError`, and the results of code that can
-- throw. A thrown value is its class and, for a `RuntimeError`, its code; messages and details
-- are text for people and are left out.
use agentlily_runtime.Common.{◌≡◌, refl, ap, ◌⊎◌, inl, inr}

pub data RuntimeErrorCode : Type 0 where
  runtime_not_started runtime_already_started runtime_already_stopped : RuntimeErrorCode
  tool_not_found duplicate_tool duplicate_in_flight_task : RuntimeErrorCode
  task_outcome_unknown task_reconciliation_unavailable : RuntimeErrorCode
  task_reconciliation_rejected task_reconciliation_conflict : RuntimeErrorCode
  invalid_task execution_failed max_tool_calls_exceeded tool_policy_denied : RuntimeErrorCode
  storage_corrupted storage_locked : RuntimeErrorCode

-- `foreign` is what a callback, a store or the platform throws.
pub data Error : Type 0 where
  runtime_error : RuntimeErrorCode → Error
  range_error type_error : Error
  foreign : Error

pub data Result {ℓ} (A : Type ℓ) : Type ℓ where
  ok : A → Result A
  err : Error → Result A

-- `await` of code that may throw: what comes next runs on its value.
infixl 5 ◌>>=◌ ◌>>◌
abbrev pub ◌>>=◌ {ℓ κ} : {A : Type ℓ} {B : Type κ} → Result A → (A → Result B) → Result B
err thrown >>= next = err thrown
ok value >>= next = next value

-- The same after a check, which has no value.
abbrev pub ◌>>◌ {ℓ} : {B : Type ℓ} → Result (Unit {0}) → Result B → Result B
err thrown >> next = err thrown
ok _ >> next = next

pub Result-cases {ℓ} :
    {A : Type ℓ} (r : Result A) → ((a : A) × (r ≡ ok a)) ⊎ ((e : Error) × (r ≡ err e))
Result-cases (ok a) = inl (a, refl)
Result-cases (err e) = inr (e, refl)

pub ok-injective {ℓ} : {A : Type ℓ} {a b : A} → ok a ≡ ok b → a ≡ b
ok-injective {A} {a} e = ap (λ r. get_ok r) e
  where
    get_ok : Result A → A
    get_ok (ok x) = x
    get_ok (err x) = a

-- Code that returned after an `await`: the awaited code returned, and so did what came after it.
pub ok_of_bind {ℓ κ} :
    {A : Type ℓ} {B : Type κ} (first : Result A) (next : A → Result B) {value : B}
    → (first >>= next) ≡ ok value
    → (awaited : A) × (first ≡ ok awaited) × (next awaited ≡ ok value)
ok_of_bind (err thrown) next e = cc
ok_of_bind (ok awaited) next e = (awaited, refl, e)
