-- ===== src/Actions/Executor/Budget.antt =====
-- The budget of tool calls that each task has, over any interleaving of calls and resets.
use agentlily_runtime.Common.{
  Text, ℕ, zero, suc, ◌+◌, ◌≤◌, ◌<◌, ◌≡◌, refl, Bool, true, false, ◌&&◌, some, List, [], ◌∷◌, arith,
  length, text_eq, text_eq_iff, if◌then◌else◌,
}
use agentlily_runtime.Common.Dict.{
  get, set, delete, Distinct, set-Distinct, delete-Distinct, length-set, length-delete, get-set,
  get-none, has-delete_self, get-delete_ne,
}
use agentlily_runtime.Common.Value.{nat}
use agentlily_runtime.Errors.{Result, ok, err}
use agentlily_runtime.Actions.Executor.{
  Budgets, init, get_tool_call_count, reset, reset_all, shrink, record_tool_call, check_quota,
  admit,
}

-- What reaches the counters: a call of a task that the policy let through, and the two resets.
pub data Op : Type 0 where
  calls resets : Text → Op
  resets_all : Op

abbrev pub accepted : Budgets → Result Budgets → Budgets × Bool
accepted b (ok b') = (b', true)
accepted b (err e) = (b, false)

-- The counters after an operation, and whether it was admitted.
unfoldable pub step : Op → Budgets → Budgets × Bool
step (calls t) b = accepted b (admit t b)
step (resets t) b = (reset t b, true)
step resets_all b = (reset_all b, true)

-- What happened, the latest first.
unfoldable pub run : List Op → Budgets × List (Op × Bool) → Budgets × List (Op × Bool)
unfolding step
run [] s = s
run (o ∷ os) (b, h) = run os ((step o b).0, (o, (step o b).1) ∷ h)

-- The admitted calls of a task since its last reset, read off the history alone.
unfoldable pub used : Text → List (Op × Bool) → ℕ
used t [] = 0
used t ((calls u, done) ∷ h) = if text_eq u t && done then suc (used t h) else used t h
used t ((resets u, done) ∷ h) = if text_eq u t then 0 else used t h
used t ((resets_all, done) ∷ h) = 0

-- The counters agree with the history, and every task stands within the quota.
pub record Agrees (max : ℕ) (b : Budgets) (h : List (Op × Bool)) : Type 0 where
  pub quota : b.max_tool_calls_per_task ≡ some max
  pub distinct : Distinct b.tool_call_counts
  pub counted : (t : Text) → get_tool_call_count t b ≡ used t h
  pub within : (t : Text) → used t h ≤ max
  pub bounded : length b.tool_call_counts ≤ b.max_tracked_tasks

shrink-small : (limit : ℕ) (m : List (Text × ℕ)) → length m < limit → shrink limit m ≡ m
unfolding shrink
shrink-small limit [] h = refl
shrink-small limit (e ∷ m) h = ground arith

-- With a quota, an admitted call was below it and adds one to its task's counter; no counter is
-- evicted.
admit_lem :
    (t : Text) (b b' : Budgets) (max : ℕ)
    → b.max_tool_calls_per_task ≡ some max
    → length b.tool_call_counts ≤ b.max_tracked_tasks
    → admit t b ≡ ok b'
    → (get_tool_call_count t b < max)
      × (b'
          ≡ record b { tool_call_counts = set t (get_tool_call_count t b + 1) b.tool_call_counts })
      × (length b'.tool_call_counts ≤ b.max_tracked_tasks)
unfolding admit check_quota record_tool_call
admit_lem t b b' max q l e = (
  ground arith,
  same,
  ground (arith, same, length-set t (get_tool_call_count t b + 1) b.tool_call_counts),
)
  where
    same :
        b' ≡ record b { tool_call_counts = set t (get_tool_call_count t b + 1) b.tool_call_counts }
    same = ground (arith, shrink-small b.max_tracked_tasks b.tool_call_counts)

count-set :
    (t u : Text) (n : ℕ) (b : Budgets)
    → get_tool_call_count u (record b { tool_call_counts = set t n b.tool_call_counts })
      ≡ (if text_eq t u then n else get_tool_call_count u b)
unfolding get_tool_call_count
count-set t u n b = ground (arith, get-set t u n b.tool_call_counts)

count-reset :
    (t u : Text) (b : Budgets)
    → Distinct b.tool_call_counts
    → get_tool_call_count u (reset t b) ≡ (if text_eq t u then 0 else get_tool_call_count u b)
unfolding get_tool_call_count reset
count-reset t u b d = ground (
  arith,
  get-delete_ne t u b.tool_call_counts,
  text_eq_iff t u,
  get-none t (delete t b.tool_call_counts) (has-delete_self t b.tool_call_counts d),
)

calls-Agrees :
    (t : Text) (max : ℕ) (b : Budgets) (h : List (Op × Bool))
    → Agrees max b h
    → (r : Result Budgets) → admit t b ≡ r
    → Agrees max (accepted b r).0 ((calls t, (accepted b r).1) ∷ h)
unfolding used
calls-Agrees t max b h a (err x) e = record {
  quota = a.quota;
  distinct = a.distinct;
  counted = λ u. ground (arith, a.counted u);
  within = λ u. ground (arith, a.within u);
  bounded = a.bounded;
}
calls-Agrees t max b h a (ok b') e =
    let (below, same, fits) = admit_lem t b b' max a.quota a.bounded e in
    record {
      quota = ground (arith, a.quota);
      distinct =
          rw same (set-Distinct t (get_tool_call_count t b + 1) b.tool_call_counts a.distinct);
      counted = λ u. ground (
        arith,
        same,
        count-set t u (get_tool_call_count t b + 1) b,
        a.counted u,
        a.counted t,
        text_eq_iff t u,
      );
      within = λ u. ground (arith, a.within u, below, a.counted t, text_eq_iff t u);
      bounded = ground (arith, same, fits);
    }

step-Agrees :
    (o : Op) (max : ℕ) (b : Budgets) (h : List (Op × Bool))
    → Agrees max b h
    → Agrees max (step o b).0 ((o, (step o b).1) ∷ h)
unfolding step used
step-Agrees (calls t) max b h a = calls-Agrees t max b h a (admit t b) refl
step-Agrees (resets t) max b h a = record {
  quota = unfold reset in a.quota;
  distinct = unfold reset in delete-Distinct t b.tool_call_counts a.distinct;
  counted = λ u. ground (arith, count-reset t u b a.distinct, a.counted u);
  within = λ u. ground (arith, a.within u);
  bounded = unfold reset in omega (arith, length-delete t b.tool_call_counts, a.bounded);
}
step-Agrees resets_all max b h a = record {
  quota = unfold reset_all in a.quota;
  distinct = unfold reset_all in tt;
  counted = λ u. unfold reset_all get_tool_call_count get in refl;
  within = λ u. omega arith;
  bounded = unfold reset_all in omega arith;
}

run-Agrees_of :
    (os : List Op) (max : ℕ) (b : Budgets) (h : List (Op × Bool))
    → Agrees max b h
    → Agrees max (run os (b, h)).0 (run os (b, h)).1
unfolding run
run-Agrees_of [] max b h a = a
run-Agrees_of (o ∷ os) max b h a =
    run-Agrees_of os max (step o b).0 ((o, (step o b).1) ∷ h) (step-Agrees o max b h a)

init-Agrees :
    (max tracked : ℕ) (b : Budgets) → init (some (nat max)) (nat tracked) ≡ ok b → Agrees max b []
unfolding init used
init-Agrees max zero b e = cc
init-Agrees max (suc n) b e = record {
  quota = ground arith;
  distinct = ground arith;
  counted = λ u. unfold get_tool_call_count get in ground arith;
  within = λ u. omega arith;
  bounded = ground arith;
}

-- With a quota of `max` calls, whatever tasks call and are reset in whatever order, and however
-- many tasks there are: each task's counter is the number of its calls that were admitted since it
-- was last reset, that number is at most `max`, and no more than `maxTrackedTasks` counters are kept.
pub run-Agrees :
    (max tracked : ℕ) (os : List Op) (b : Budgets)
    → init (some (nat max)) (nat tracked) ≡ ok b
    → Agrees max (run os (b, [])).0 (run os (b, [])).1
run-Agrees max tracked os b e = run-Agrees_of os max b [] (init-Agrees max tracked b e)
