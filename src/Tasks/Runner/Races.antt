-- ===== src/Tasks/Runner/Races.antt =====
-- A duplicate of a running task.
use agentlily_runtime.Common.{ℕ, Text, ◌≡◌, subst, ◌∙◌, Bool, true, false, arith, text_eq_refl}
use agentlily_runtime.Common.Dict.{member, add, member-add}
use agentlily_runtime.Errors.{ok, Error}
use agentlily_runtime.Tasks.ClaimStore.{
  Filled, TaskClaimSnapshot, TaskClaimStore, ClaimLaws, ClaimPost,
}
use agentlily_runtime.Tasks.Runner.{World, mark_unknown, take_claim, settle, after_failure}

module _ {S : Type 0} (c : TaskClaimStore S) (holds : S → Text → Bool)
    (copies : S → TaskClaimSnapshot → ℕ) (IsSound : S → Type 0)
    (laws : ClaimLaws c holds copies IsSound) where
  duplicate_held :
      (t : Text) (now id : Filled) (w : World S) (s' : S)
      → IsSound w.store
      → c.claim t now id w.store ≡ (ok false, s')
      → holds s' t ≡ true
  duplicate_held t now id w s' h e =
      held (subst (λ r. ClaimPost holds copies t w.store r) e (laws.claim_law t now id w.store h).0)
    where
      held : ClaimPost holds copies t w.store (ok false, s') → holds s' t ≡ true
      held (before, same) = same t ∙ before

  -- A second run of a task that is refused by the store marks the task. When the tool of the first
  -- run then rejects, nothing is released: the claim stays, though no tool of the task is active.
  pub duplicate_blocks_release :
      (R : Type 0) (t : Text) (now id : Filled) (e : Error) (w : World S) (s' : S)
      → IsSound w.store
      → c.claim t now id w.store ≡ (ok false, s')
      → holds (after_failure c {R = R} t e (settle c t (take_claim c t now id w).1).1).1.store t
        ≡ true
  unfolding after_failure settle take_claim mark_unknown
  duplicate_blocks_release R t now id e w s' h q =
      rw (q, after_failure, now_marked) (duplicate_held t now id w s' h q)
    where
      now_marked : member t (add t w.unknown) ≡ true
      now_marked = ground (arith, member-add t t w.unknown, text_eq_refl t)
