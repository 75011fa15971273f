-- ===== src/Tasks/Runner/Pieces.antt =====
-- What each piece of the runner does to the fences of a store that keeps its promises.
use agentlily_runtime.Common.{
  ℕ, Text, ◌≡◌, refl, Bool, true, false, inl, inr, arith, text_eq, text_eq_refl, Bool-cases,
  is_blank, trim, [], ◌∷◌,
}
use agentlily_runtime.Common.Dict.{member}
use agentlily_runtime.Errors.{Result, ok, err, Error}
use agentlily_runtime.Tasks.ClaimStore.{
  Filled, is_empty, TaskClaimSnapshot, TaskClaimStore, ClaimLaws, ClaimPost, ReleasePost, HasPost,
  MatchesPost,
}
use agentlily_runtime.Tasks.Runner.{
  World, mark_unknown, unmark, refresh_unknown, take_claim, release_claim_safely, after_failure,
  record_result,
}
use agentlily_runtime.Tasks.Reconciliation.{check_inactive, commit_reconciliation}

-- The text of a check for blank texts is not empty.
pub is_blank-is_empty : (t : Text) → is_blank t ≡ false → is_empty t ≡ false
unfolding is_blank trim text_eq
is_blank-is_empty [] h = cc
is_blank-is_empty (x ∷ t) h = refl

module _ {S : Type 0} (c : TaskClaimStore S) (holds : S → Text → Bool)
    (copies : S → TaskClaimSnapshot → ℕ) (IsSound : S → Type 0)
    (laws : ClaimLaws c holds copies IsSound) where
  -- The store stays in a state that it can be in, the tools that run stay the same, and the fences of
  -- all identifiers but `t` stay.
  pub record Only (t : Text) (w w' : World S) : Type 0 where
    pub sound : IsSound w'.store
    pub active : w'.active ≡ w.active
    pub others : (u : Text) → text_eq t u ≡ false → holds w'.store u ≡ holds w.store u

  -- The same, with the fence of `t` kept too.
  pub record Keeps (w w' : World S) : Type 0 where
    pub sound : IsSound w'.store
    pub active : w'.active ≡ w.active
    pub fences : (u : Text) → holds w'.store u ≡ holds w.store u

  module _ (t : Text) (w : World S) (h : IsSound w.store) where
    refresh_marked :
        member t w.unknown ≡ true
        → (r : Result Bool × S) → c.has t w.store ≡ r
        → HasPost holds copies t w.store r × IsSound r.1
        → Keeps w (refresh_unknown c t w).1
    unfolding refresh_unknown unmark
    refresh_marked m (ok true, s') e (p, q) =
        rw (m, e, refresh_unknown) (record { sound = q; active = refl; fences = p.1 })
    refresh_marked m (ok false, s') e (p, q) =
        rw (m, e, refresh_unknown) (record { sound = q; active = refl; fences = p.1 })
    refresh_marked m (err x, s') e (p, q) =
        rw (m, e, refresh_unknown) (record { sound = q; active = refl; fences = p })

    pub refresh_unknown-Keeps : Keeps w (refresh_unknown c t w).1
    unfolding refresh_unknown
    refresh_unknown-Keeps = elim (Bool-cases (member t w.unknown)) [
      | inr known ↦
          rw (known, refresh_unknown) (record { sound = h; active = refl; fences = λ u. refl })
      | inl marked ↦ refresh_marked marked (c.has t w.store) refl (laws.has_law t w.store h)
    ]

    -- A claim is taken only of an identifier that was free, which is then fenced if it is not empty.
    abbrev pub Taken : World S → Type 0
    Taken w' =
        (holds w.store t ≡ false) × (is_empty t ≡ false → (holds w'.store t ≡ true) × Only t w w')

    abbrev pub ClaimEnds : Result (Unit {0}) × World S → Type 0
    ClaimEnds (ok _, w') = Taken w'
    ClaimEnds (err _, w') = Keeps w w'

    take_claim_of :
        (now id : Filled) (r : Result Bool × S)
        → c.claim t now id w.store ≡ r
        → ClaimPost holds copies t w.store r × IsSound r.1
        → ClaimEnds (take_claim c t now id w)
    unfolding take_claim mark_unknown
    take_claim_of now id (ok true, s') e ((free, fences), q) = rw e (
      free,
      λ named. (
        ground (arith, fences named t, text_eq_refl t),
        record { sound = q; active = refl; others = λ u o. ground (arith, fences named u) },
      ),
    )
    take_claim_of now id (ok false, s') e ((held, fences), q) =
        rw e (record { sound = q; active = refl; fences = fences })
    take_claim_of now id (err x, s') e (fences, q) =
        rw e (record { sound = q; active = refl; fences = fences })

    pub take_claim-ClaimEnds : (now id : Filled) → ClaimEnds (take_claim c t now id w)
    take_claim-ClaimEnds now id =
        take_claim_of now id (c.claim t now id w.store) refl (laws.claim_law t now id w.store h)

    release_of :
        (r : Result (Unit {0}) × S)
        → c.release t w.store ≡ r
        → ReleasePost holds copies t w.store r × IsSound r.1
        → Only t w (release_claim_safely c t w).1
    unfolding release_claim_safely mark_unknown unmark
    release_of (ok _, s') e (freed, q) =
        rw e (record { sound = q; active = refl; others = λ u o. ground (arith, freed u) })
    release_of (err x, s') e (same, q) =
        rw e (record { sound = q; active = refl; others = λ u o. same u })

    pub release-Only : Only t w (release_claim_safely c t w).1
    release-Only = release_of (c.release t w.store) refl (laws.release_law t w.store h)

    failed_of :
        (R : Type 0) (e : Error) (r : Result (Unit {0}) × S)
        → c.release t w.store ≡ r
        → ReleasePost holds copies t w.store r × IsSound r.1
        → member t w.unknown ≡ false
        → Only t w (after_failure c {R = R} t e w).1
    unfolding after_failure release_claim_safely mark_unknown unmark
    failed_of R e (ok _, s') eq (freed, q) m =
        rw (m, eq, after_failure)
          (record { sound = q; active = refl; others = λ u o. ground (arith, freed u) })
    failed_of R e (err x, s') eq (same, q) m =
        rw (m, eq, after_failure) (record { sound = q; active = refl; others = λ u o. same u })

    -- The release is skipped for a task that is marked.
    pub after_failure-Only : (R : Type 0) (e : Error) → Only t w (after_failure c {R = R} t e w).1
    unfolding after_failure
    after_failure-Only R e = elim (Bool-cases (member t w.unknown)) [
      | inl marked ↦
          rw (marked, after_failure) (record { sound = h; active = refl; others = λ u o. refl })
      | inr clear ↦ failed_of R e (c.release t w.store) refl (laws.release_law t w.store h) clear
    ]

    pub record_result-Only : (saved : Result (Unit {0})) → Only t w (record_result c t saved w).1
    unfolding record_result mark_unknown
    record_result-Only (ok _) = release-Only
    record_result-Only (err e) = record { sound = h; active = refl; others = λ u o. refl }

  -- A commit that succeeds found no active tool, and frees that identifier alone.
  pub record Committed (t : Text) (w w' : World S) : Type 0 where
    pub inactive : member t w.active ≡ false
    pub held : holds w.store t ≡ true
    pub only : Only t w w'

  module _ (r : TaskClaimSnapshot) (w : World S) (h : IsSound w.store) where
    abbrev pub CommitEnds : Result (Unit {0}) × World S → Type 0
    CommitEnds (ok _, w') = Committed r.task_id w w'
    CommitEnds (err _, w') = Keeps w w'

    commit_of :
        (x : Result Bool × S)
        → c.release_if_matches r w.store ≡ x
        → MatchesPost holds copies r w.store x × IsSound x.1
        → member r.task_id w.active ≡ false
        → CommitEnds (commit_reconciliation c r.task_id r w)
    unfolding commit_reconciliation check_inactive unmark
    commit_of (ok true, s') e ((held, others, _, _), q) m =
        rw (m, e)
          (record {
            inactive = m;
            held = held;
            only = record { sound = q; active = refl; others = others };
          })
    commit_of (ok false, s') e ((absent, same), q) m =
        rw (m, e) (record { sound = q; active = refl; fences = same })
    commit_of (err x, s') e (same, q) m =
        rw (m, e) (record { sound = q; active = refl; fences = same })

    pub commit-CommitEnds : CommitEnds (commit_reconciliation c r.task_id r w)
    unfolding commit_reconciliation check_inactive
    commit-CommitEnds = elim (Bool-cases (member r.task_id w.active)) [
      | inl busy ↦ rw busy (record { sound = h; active = refl; fences = λ u. refl })
      | inr idle ↦
          commit_of (c.release_if_matches r w.store) refl (laws.matches_law r w.store h) idle
    ]
