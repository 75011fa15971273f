-- ===== src/Policies/ToolApproval/Spent.antt =====
-- A spent record over any history of grants, revocations and consumptions.
use agentlily_runtime.Common.{
  Text, ℕ, ◌≡◌, refl, Bool, true, false, not, ◌&&◌, ◌||◌, inl, inr, Option, none, some, List, [],
  ◌∷◌, arith, text_eq, text_eq_iff, is_some, is_blank, get_or, if◌then◌else◌, Bool-cases,
  Option-cases,
}
use agentlily_runtime.Common.Dict.{get, set, Distinct, set-Distinct, get-set, get-none}
use agentlily_runtime.Errors.{Result, ok, err, Error, ◌>>=◌, ◌>>◌}
use agentlily_runtime.Policies.ToolApproval.{
  ToolApprovalGrantRequest, ToolApprovalRecord, ToolApprovalConsumeRequest, ToolApprovalStore,
  require_non_empty, check_new, check_expiry, valid_time, approve, revoke, get_approval, is_match,
  first_valid, take_approval, consume_at, consume,
}
use agentlily_runtime.Policies.ToolApproval.Laws.{first_valid-Found}

-- A record that no consumption may take any more.
abbrev pub is_spent : ToolApprovalRecord → Bool
is_spent r = is_some r.consumed_at || is_some r.revoked_at

pub data Call (P : Type 0) : Type 0 where
  approves : ToolApprovalGrantRequest P → (fresh : Text) → (now : Option ℕ) → Call P
  revokes : Text → (now : Option ℕ) → Call P
  consumes : ToolApprovalConsumeRequest P → (now : Option ℕ) → Call P

-- A call that throws changes nothing.
abbrev pub after :
    {A : Type 0} → ToolApprovalStore → Result (ToolApprovalStore × A) → ToolApprovalStore
after s (ok (s', a)) = s'
after s (err e) = s

module _ {P : Type 0} (digest : P → Result Text) (instant : Text → Result ℕ) (iso : ℕ → Text) where
  unfoldable pub step : Call P → ToolApprovalStore → ToolApprovalStore
  step (approves q fresh now) s = after s (approve digest instant iso q fresh now s)
  step (revokes id now) s = after s (revoke digest instant iso id now s)
  step (consumes q now) s = after s (consume digest instant iso q now s)

  unfoldable pub run : List (Call P) → ToolApprovalStore → ToolApprovalStore
  unfolding step
  run [] s = s
  run (c ∷ cs) s = run cs (step c s)

  -- A step writes at most one record, and not over a spent one.
  pub data Writes (s s' : ToolApprovalStore) : Type 0 where
    nothing : s' ≡ s → Writes s s'
    one :
        (k : Text) (r : ToolApprovalRecord)
        → s'.approvals ≡ set k r s.approvals
        → ((a : ToolApprovalRecord) → get k s.approvals ≡ some a → is_spent a ≡ false)
        → Writes s s'

  take-Writes :
      (q : ToolApprovalConsumeRequest P) (runtime_id d : Text) (now : ℕ) (s : ToolApprovalStore)
      → Distinct s.approvals
      → (f : Result (Option (Text × ToolApprovalRecord)))
      → first_valid digest instant iso q runtime_id d now s.approvals ≡ f
      → Writes s (after s (f >>= λ found. ok (take_approval digest instant iso now found s)))
  unfolding take_approval is_match
  take-Writes q runtime_id d now s h (err x) e = nothing refl
  take-Writes q runtime_id d now s h (ok none) e = nothing refl
  take-Writes q runtime_id d now s h (ok (some (k, r))) e =
      let f = first_valid-Found digest instant iso q runtime_id d now s.approvals k r h e in
      one k _ refl (λ a g. ground (arith, f.stored, g, f.unconsumed, f.unrevoked))

  consume-Writes :
      (q : ToolApprovalConsumeRequest P) (now : Option ℕ) (s : ToolApprovalStore)
      → Distinct s.approvals
      → Writes s (after s (consume digest instant iso q now s))
  unfolding consume consume_at
  consume-Writes q now s h =
      elim (Bool-cases (
        (is_some q.runtime_id && is_blank (get_or q.runtime_id s.runtime_id))
        || not (text_eq (get_or q.runtime_id s.runtime_id) s.runtime_id))) [
          | inl bad ↦ rw (bad, consume) (nothing refl)
          | inr fine ↦ rw (fine, consume) (checked (digest q.payload) now)
        ]
    where
      checked :
          (d : Result Text) (now : Option ℕ)
          → Writes s
              (after s (consume_at digest instant iso q (get_or q.runtime_id s.runtime_id) d now s))
      checked (err x) now = nothing refl
      checked (ok d) none = nothing refl
      checked (ok d) (some t) = take-Writes q (get_or q.runtime_id s.runtime_id) d t s h _ refl

  revoke-Writes :
      (id : Text) (now : Option ℕ) (s : ToolApprovalStore)
      → Writes s (after s (revoke digest instant iso id now s))
  unfolding revoke require_non_empty
  revoke-Writes id now s = elim (Bool-cases (is_blank id)) [
    | inl blank ↦ rw (blank, revoke) (nothing refl)
    | inr named ↦ elim (Option-cases (get id s.approvals)) [
      | inl missing ↦ rw (named, missing, revoke) (nothing refl)
      | inr (r, found) ↦ elim (Bool-cases (is_spent r)) [
        | inl spent ↦ rw (named, found, spent, revoke) (nothing refl)
        | inr live ↦ rw (named, found, live, revoke) (timed r live found now)
      ]
    ]
  ]
    where
      timed :
          (r : ToolApprovalRecord)
          → is_spent r ≡ false
          → get id s.approvals ≡ some r
          → (now : Option ℕ)
          → Writes s (
              after s (
                valid_time digest instant iso now >>= λ t. ok (
                  record s {
                    approvals = set id (record r { revoked_at = some (iso t) }) s.approvals;
                  },
                  true,
                )))
      timed r live found none = nothing refl
      timed r live found (some t) = one id _ refl (λ a g. ground (arith, found, g, live))

  -- The same, of what a call returns.
  data WritesBy (A : Type 0) (s : ToolApprovalStore) : Result (ToolApprovalStore × A) → Type 0 where
    threw : (e : Error) → WritesBy A s (err e)
    wrote : (s' : ToolApprovalStore) (a : A) → Writes s s' → WritesBy A s (ok (s', a))

  WritesBy-Writes :
      (A : Type 0) (s : ToolApprovalStore) (r : Result (ToolApprovalStore × A))
      → WritesBy A s r
      → Writes s (after s r)
  WritesBy-Writes A s _ (threw e) = nothing refl
  WritesBy-Writes A s _ (wrote s' a w) = w

  -- A check or a value in front of the rest: if it throws, nothing is written.
  gate :
      {A B : Type 0} (s : ToolApprovalStore) (m : Result B) (k : B → Result (ToolApprovalStore × A))
      → ((b : B) → m ≡ ok b → WritesBy A s (k b))
      → WritesBy A s (m >>= k)
  gate s (ok b) k f = f b refl
  gate s (err x) k f = threw x

  check :
      {A : Type 0} (s : ToolApprovalStore) (m : Result (Unit {0}))
      (k : Result (ToolApprovalStore × A))
      → (m ≡ ok tt → WritesBy A s k)
      → WritesBy A s (m >> k)
  check s (ok _) k f = f refl
  check s (err x) k f = threw x

  approve-WritesBy :
      (q : ToolApprovalGrantRequest P) (fresh : Text) (now : Option ℕ) (s : ToolApprovalStore)
      → WritesBy ToolApprovalRecord s (approve digest instant iso q fresh now s)
  unfolding approve check_new
  approve-WritesBy q fresh now s = check s (require_non_empty q.task_id) _ λ _.
      check s (require_non_empty q.agent_id) _ λ _. check s (require_non_empty q.tool_name) _ λ _.
        check s
          (if is_some q.approval_id then require_non_empty (get_or q.approval_id fresh) else ok tt)
          _
          λ _. check s (check_new (get_or q.approval_id fresh) s) _ λ free.
            gate s (valid_time digest instant iso now) _ λ t _.
              check s (check_expiry digest instant iso q.expires_at t) _ λ _.
                gate s (digest q.payload) _ λ d _. wrote _ _ (
                  one (get_or q.approval_id fresh) _ refl (λ a g.
                    ground (arith, free, g, get-none (get_or q.approval_id fresh) s.approvals)))

  step-Writes : (c : Call P) (s : ToolApprovalStore) → Distinct s.approvals → Writes s (step c s)
  unfolding step
  step-Writes (approves q fresh now) s h =
      WritesBy-Writes ToolApprovalRecord s _ (approve-WritesBy q fresh now s)
  step-Writes (revokes id now) s h = revoke-Writes id now s
  step-Writes (consumes q now) s h = consume-Writes q now s h

  Writes-Distinct :
      (s s' : ToolApprovalStore) → Writes s s' → Distinct s.approvals → Distinct s'.approvals
  Writes-Distinct s s' (nothing e) h = rw e h
  Writes-Distinct s s' (one k r e live) h = rw e (set-Distinct k r s.approvals h)

  Writes-spent :
      (s s' : ToolApprovalStore) (id : Text) (r : ToolApprovalRecord)
      → Writes s s'
      → get id s.approvals ≡ some r
      → is_spent r ≡ true
      → get id s'.approvals ≡ some r
  Writes-spent s s' id r (nothing e) g spent = rw e g
  Writes-spent s s' id r (one k a e live) g spent =
      rw e (ground (arith, get-set k id a s.approvals, g, live r, spent, text_eq_iff k id))

  -- On a store whose identifiers are distinct, a record that was consumed or revoked stays as it is,
  -- whatever is granted, revoked or consumed after it.
  pub spent_for_good :
      (cs : List (Call P)) (s : ToolApprovalStore) (id : Text) (r : ToolApprovalRecord)
      → Distinct s.approvals
      → get_approval digest instant iso id s ≡ some r
      → is_spent r ≡ true
      → get_approval digest instant iso id (run cs s) ≡ some r
  unfolding run get_approval
  spent_for_good [] s id r h g spent = g
  spent_for_good (c ∷ cs) s id r h g spent =
      let w = step-Writes c s h in
      spent_for_good cs (step c s) id r (Writes-Distinct s (step c s) w h)
        (Writes-spent s (step c s) id r w g spent) spent
