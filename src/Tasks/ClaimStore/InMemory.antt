-- ===== src/Tasks/ClaimStore/InMemory.antt =====
-- src/tasks/task-claim-store.ts: `InMemoryTaskClaimStore`.
use agentlily_runtime.Common.{
  Text, ℕ, suc, ◌==◌, sym, ap, ◌∙◌, text_eq_refl, ◌≡◌, refl, Bool, true, false, Option, none, some,
  List, [], ◌∷◌, arith, text_eq, text_eq_iff, if◌then◌else◌, Bool-cases, Option-cases, inl, inr,
}
use agentlily_runtime.Common.Dict.{
  get, has, set, delete, Distinct, set-Distinct, delete-Distinct, has-set, has-delete_ne,
  has-delete_self, get-none, get-delete_ne,
}
use agentlily_runtime.Effects.{Action}
use agentlily_runtime.Errors.{ok}
use agentlily_runtime.Tasks.ClaimStore.{
  Filled, text_of, TaskClaimSnapshot, same_claim, TaskClaimStore, ClaimLaws, ClaimPost, MatchesPost,
  InspectPost,
}

abbrev pub Claims : Type 0
Claims = List (Text × TaskClaimSnapshot)

unfoldable pub claim : (task_id : Text) (now claim_id : Filled) → Action Claims Bool
claim task_id now claim_id claims = if has task_id claims then (ok false, claims) else (
  ok true,
  set task_id (record { task_id = task_id; claimed_at = text_of now; claim_id = text_of claim_id })
      claims,
)

unfoldable pub release : Text → Action Claims (Unit {0})
release task_id claims = (ok tt, delete task_id claims)

unfoldable pub has_claim : Text → Action Claims Bool
has_claim task_id claims = (ok (has task_id claims), claims)

unfoldable pub inspect : Text → Action Claims (Option TaskClaimSnapshot)
inspect task_id claims = (ok (get task_id claims), claims)

unfoldable pub release_if_matches : TaskClaimSnapshot → Action Claims Bool
release_if_matches c claims = elim (get c.task_id claims) [
  | none ↦ (ok false, claims)
  | some current ↦
      if text_eq current.claim_id c.claim_id
      then (ok true, delete c.task_id claims)
      else (ok false, claims)
]

abbrev pub in_memory_task_claim_store : TaskClaimStore Claims
in_memory_task_claim_store = record {
  claim = claim;
  release = release;
  has = has_claim;
  inspect = inspect;
  release_if_matches = release_if_matches;
}

-- Identifiers are distinct, and each claim is that of its identifier.
abbrev pub Keyed : Claims → Type 0
Keyed [] = Unit
Keyed ((k, c) ∷ m) = (c.task_id ≡ k) × Keyed m

abbrev pub IsSound : Claims → Type 0
IsSound m = Distinct m × Keyed m

delete-Keyed : (k : Text) (m : Claims) → Keyed m → Keyed (delete k m)
unfolding delete
delete-Keyed k [] h = tt
delete-Keyed k ((j, c) ∷ m) h = ground (arith, delete-Keyed k m h.1)

set-Keyed :
    (k : Text) (c : TaskClaimSnapshot) (m : Claims) → c.task_id ≡ k → Keyed m → Keyed (set k c m)
unfolding set
set-Keyed k c [] e h = (e, tt)
set-Keyed k c ((j, d) ∷ m) e h = ground (arith, set-Keyed k c m e h.1, text_eq_iff j k)

get-Keyed :
    (k : Text) (m : Claims) (c : TaskClaimSnapshot)
    → Keyed m
    → get k m ≡ some c
    → (c.task_id ≡ k) × (has k m ≡ true)
unfolding get has
get-Keyed k [] c h e = cc
get-Keyed k ((j, d) ∷ m) c h e = ground (arith, get-Keyed k m c h.1, text_eq_iff j k)

has-delete :
    (k u : Text) (m : Claims)
    → Distinct m
    → has u (delete k m) ≡ (if text_eq k u then false else has u m)
has-delete k u m d = ground (arith, has-delete_ne k u m, has-delete_self k m d, text_eq_iff k u)

unfoldable pub holds : Claims → Text → Bool
holds m u = has u m

abbrev pub copies_in : Option TaskClaimSnapshot → TaskClaimSnapshot → ℕ
copies_in none r = 0
copies_in (some c) r = if text_eq c.claim_id r.claim_id then 1 else 0

unfoldable pub copies : Claims → TaskClaimSnapshot → ℕ
copies m r = copies_in (get r.task_id m) r

claim-ClaimPost :
    (t : Text) (now id : Filled) (m : Claims)
    → IsSound m
    → ClaimPost holds copies t m (claim t now id m) × IsSound (claim t now id m).1
unfolding claim holds
claim-ClaimPost t now id m h = elim (Bool-cases (has t m)) [
  | inl held ↦ rw (held, claim) ((held, λ u. refl), h)
  | inr free ↦
      rw (free, claim)
        ((free, λ named u. has-set t u _ m), (set-Distinct t _ m h.0, set-Keyed t _ m refl h.1))
]

get-delete_self : (k : Text) (m : Claims) → Distinct m → get k (delete k m) ≡ none
get-delete_self k m d = get-none k (delete k m) (has-delete_self k m d)

-- Of the claim that is gone there is no copy left, and of each other as many as before.
copies-delete :
    (r q : TaskClaimSnapshot) (m : Claims) (c : TaskClaimSnapshot)
    → Distinct m
    → get r.task_id m ≡ some c
    → text_eq c.claim_id r.claim_id ≡ true
    → same_claim r q ≡ false
    → copies (delete r.task_id m) q ≡ copies m q
unfolding copies
copies-delete r q m c d found same other = elim (Bool-cases (text_eq r.task_id q.task_id)) [
  | inr apart ↦ ap (λ o. copies_in o q) (get-delete_ne r.task_id q.task_id m apart)
  | inl one ↦
      let task = (text_eq_iff r.task_id q.task_id).0 one in
      let differs : text_eq c.claim_id q.claim_id ≡ false = ground (
        arith,
        text_eq_iff c.claim_id r.claim_id,
        text_eq_iff c.claim_id q.claim_id,
        text_eq_iff r.claim_id q.claim_id,
      ) in
      ap (λ o. copies_in o q)
        (ap (λ k. get k (delete r.task_id m)) (sym task) ∙ get-delete_self r.task_id m d)
      ∙ sym (ap (λ o. copies_in o q) (ap (λ k. get k m) (sym task) ∙ found) ∙ (rw differs refl))
]

release_if_matches-MatchesPost :
    (r : TaskClaimSnapshot) (m : Claims)
    → IsSound m
    → MatchesPost holds copies r m (release_if_matches r m) × IsSound (release_if_matches r m).1
unfolding release_if_matches holds copies
release_if_matches-MatchesPost r m h = elim (Option-cases (get r.task_id m)) [
  | inl missing ↦ rw (missing, release_if_matches) ((ap (λ o. copies_in o r) missing, λ u. refl), h)
  | inr (c, found) ↦ elim (Bool-cases (text_eq c.claim_id r.claim_id)) [
    | inl same ↦
        rw (found, same, release_if_matches)
          (
            (
              (get-Keyed r.task_id m c h.1 found).1,
              λ u other. has-delete_ne r.task_id u m other,
              ap (λ o. copies_in o r) found
                  ∙ rw same refl
                  ∙ sym (ap (λ o. suc (copies_in o r)) (get-delete_self r.task_id m h.0)),
              λ q other. copies-delete r q m c h.0 found same other,
            ),
            (delete-Distinct r.task_id m h.0, delete-Keyed r.task_id m h.1),
          )
    | inr changed ↦
        rw (found, changed, release_if_matches)
          ((ap (λ o. copies_in o r) found ∙ rw changed refl, λ u. refl), h)
  ]
]

inspect-InspectPost :
    (t : Text) (m : Claims)
    → IsSound m
    → InspectPost holds copies t m (inspect t m) × IsSound (inspect t m).1
unfolding inspect holds copies
inspect-InspectPost t m h = elim (Option-cases (get t m)) [
  | inl missing ↦ rw (missing, inspect) ((λ u. refl), h)
  | inr (c, found) ↦
      let (same, held) = get-Keyed t m c h.1 found in
      let there : (copies_in (get c.task_id m) c == 0) ≡ false =
        rw (same, found, text_eq_refl c.claim_id) refl in
      rw (found, inspect) ((same, held, (λ u. refl), there), h)
]

-- The in-memory store keeps the promises of the interface: a claim is made only of a free
-- identifier, a release frees its identifier alone, and a release of a snapshot takes away one claim
-- with the snapshot's identity, if there is one, and no claim that was made anew since.
pub in_memory-ClaimLaws : ClaimLaws in_memory_task_claim_store holds copies IsSound
unfolding holds release has_claim copies
in_memory-ClaimLaws = record {
  claim_law = claim-ClaimPost;
  release_law =
      λ t m h. ((λ u. has-delete t u m h.0), (delete-Distinct t m h.0, delete-Keyed t m h.1));
  has_law = λ t m h. ((refl, λ u. refl), h);
  inspect_law = inspect-InspectPost;
  matches_law = release_if_matches-MatchesPost;
}
