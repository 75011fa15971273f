-- ===== src/Policies/ToolPolicy/Laws.antt =====
-- The conjunction of policies: it allows when all children do, and the first refusal stands.
use mathlib.Core.Path.{subst}
use mathlib.Core.List.{append-nil}
use agentlily_runtime.Common.{
  Text, ◌≡◌, refl, ◌∙◌, ap, sym, true, false, inl, inr, ◌↔◌, ◌||◌, none, some, List, [], ◌∷◌, ◌++◌,
  arith, if◌then◌else◌, text_eq, any, Bool-cases,
}
use agentlily_runtime.Common.Dict.{member, add, member-add}
use agentlily_runtime.Effects.{continue, return, Action-cases}
use agentlily_runtime.Errors.{Result, ok, err}
use agentlily_runtime.Policies.ToolPolicy.{
  ToolPolicyRequest, ToolPolicy, Decision, decided, allows, add_all, snapshot, allowlist_denial,
  tool_allowlist_policy, all_of,
}

-- An outcome that refuses the request: the policy threw, or its decision does not allow.
abbrev pub Refuses : Result Decision → Type 0
Refuses (ok d) = allows d ≡ false
Refuses (err e) = Unit

-- ... and one that allows it.
abbrev pub Allows : Result Decision → Type 0
Allows (ok d) = allows d ≡ true
Allows (err e) = ⊥

module _ {P S : Type 0} (request : ToolPolicyRequest P) where
  -- Each policy of the list, run from the state that the one before it left, allows the request;
  -- the last leaves `t`.
  pub data AllAllow : List (ToolPolicy P S) → S → S → Type 0 where
    done : {s : S} → AllAllow [] s s
    next :
        {p : ToolPolicy P S} {ps : List (ToolPolicy P S)} {s t : S} (d : Decision) (s' : S)
        → p request s ≡ (ok d, s')
        → allows d ≡ true
        → AllAllow ps s' t
        → AllAllow (p ∷ ps) s t

  all_of-append :
      {ps : List (ToolPolicy P S)} {s t : S} (qs : List (ToolPolicy P S))
      → AllAllow ps s t
      → all_of (ps ++ qs) request s ≡ all_of qs request t
  unfolding all_of
  all_of-append qs done = refl
  all_of-append qs (next d s' e a rest) = rw (e, a) (all_of-append qs rest)

  -- The first policy that refuses decides: its outcome, thrown or returned, is the outcome of the
  -- whole, in the state that it left, whatever policies come after it.
  pub all_of_first_refusal :
      {ps : List (ToolPolicy P S)} {s t : S} (p : ToolPolicy P S) (qs : List (ToolPolicy P S))
      → AllAllow ps s t
      → Refuses (p request t).0
      → all_of (ps ++ p ∷ qs) request s ≡ p request t
  unfolding all_of
  all_of_first_refusal {t} p qs h r = all_of-append (p ∷ qs) h ∙ refusal (p request t) r
    where
      refusal :
          (o : Result Decision × S)
          → Refuses o.0
          → continue (λ d. if allows d then all_of qs request else return d) o ≡ o
      refusal (ok d, u) f = rw f
      refusal (err e, u) f = refl

  all_of-AllAllow :
      (ps : List (ToolPolicy P S)) (s t : S) (d : Decision)
      → all_of ps request s ≡ (ok d, t)
      → allows d ≡ true
      → AllAllow ps s t
  unfolding all_of
  all_of-AllAllow [] s t d e a = subst (AllAllow [] s) (ap (λ r. r.1) e) done
  all_of-AllAllow (p ∷ ps) s t d e a = elim (Action-cases (p request s)) [
    | inl (d', s', e') ↦ elim (Bool-cases (allows d')) [
      | inl yes_d ↦
          next d' s' e' yes_d (all_of-AllAllow ps s' t d (rw yes_d at (rw (e', all_of) at e)) a)
      | inr no_d ↦
          let same : ◌≡◌ {A = Result Decision × S} (ok d', s') (ok d, t) =
            rw no_d at (rw (e', all_of) at e) in
          ground arith
    ]
    | inr (x, s', e') ↦
        let same : ◌≡◌ {A = Result Decision × S} (err x, s') (ok d, t) = rw (e', all_of) at e in
        ground arith
  ]

  -- The conjunction allows a request, leaving the state `t`, exactly when every policy in turn
  -- allows it, each in the state that the one before left, and the last leaves `t`.
  pub all_of_iff :
      (ps : List (ToolPolicy P S)) (s t : S)
      → ((d : Decision) × (all_of ps request s ≡ (ok d, t)) × (allows d ≡ true)) ↔ AllAllow ps s t
  unfolding all_of allows
  all_of_iff ps s t = (
    λ (d, e, a). all_of-AllAllow ps s t d e a,
    λ h. (
      decided true none,
      ap (λ l. all_of l request s) (sym (append-nil ps)) ∙ all_of-append [] h,
      refl,
    ),
  )

member-add_all :
    (u : Text) (known names : List Text)
    → member u (add_all known names) ≡ member u known || any (λ n. text_eq n u) names
unfolding add_all
member-add_all u known [] = ground arith
member-add_all u known (n ∷ names) =
    ground (arith, member-add_all u (add n known) names, member-add n u known)

pub member-snapshot :
    (u : Text) (names : List Text) → member u (snapshot names) ≡ any (λ n. text_eq n u) names
unfolding snapshot member
member-snapshot u names = member-add_all u [] names

-- An allowlist leaves the state alone, never throws, and allows a request exactly when the tool's
-- name is one of the names listed; an empty list allows nothing.
tool_allowlist_lem :
    {P S : Type 0} (names : List Text) (request : ToolPolicyRequest P) (s : S)
    → (d : Decision) × (tool_allowlist_policy names request s ≡ (ok d, s))
      × (allows d ≡ any (λ n. text_eq n request.tool_name) names)
unfolding tool_allowlist_policy snapshot allows member
tool_allowlist_lem names request s = elim (Bool-cases (member request.tool_name (snapshot names))) [
  | inl listed ↦ (
    decided true none,
    rw (listed, tool_allowlist_policy) refl,
    sym listed ∙ member-add_all request.tool_name [] names,
  )
  | inr other ↦ (
    decided false (some (allowlist_denial request.tool_name)),
    rw (other, tool_allowlist_policy) refl,
    sym other ∙ member-add_all request.tool_name [] names,
  )
]
