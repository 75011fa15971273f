-- ===== src/Tasks/ClaimStore.antt =====
-- src/tasks/task-claim-store.ts: the interface `TaskClaimStore` with the promises of its comments
-- as laws. The state `S` is the store and what it depends on, such as a file and the faults to
-- come.
pub mod InMemory
pub mod JsonFile
use agentlily_runtime.Common.{
  Text, ℕ, suc, ◌≡◌, ◌&&◌, ◌==◌, List, [], ◌∷◌, Bool, true, false, ◌||◌, Option, none, some,
  text_eq, if◌then◌else◌,
}
use agentlily_runtime.Effects.{Action}
use agentlily_runtime.Errors.{Result, ok, err, Error}

-- `claim_id` is missing from legacy records.
pub record TaskClaimRecord : Type 0 where
  pub task_id : Text
  pub claimed_at : Text
  pub claim_id : Option Text

pub record TaskClaimSnapshot : Type 0 where
  pub task_id : Text
  pub claimed_at : Text
  pub claim_id : Text

-- A text that the platform makes, a time or an identity, has at least one character.
pub data Filled : Type 0 where
  filled : ℕ → Text → Filled

abbrev pub text_of : Filled → Text
text_of (filled c s) = c ∷ s

abbrev pub is_empty : Text → Bool
is_empty [] = true
is_empty (c ∷ s) = false

-- Two snapshots of one claim.
abbrev pub same_claim : TaskClaimSnapshot → TaskClaimSnapshot → Bool
same_claim r q = text_eq r.task_id q.task_id && text_eq r.claim_id q.claim_id

-- A claim is made at a time and under a fresh identity, both given by the platform.
pub record TaskClaimStore (S : Type 0) : Type 0 where
  pub claim : (task_id : Text) (now claim_id : Filled) → Action S Bool
  pub release : Text → Action S (Unit {0})
  pub has : Text → Action S Bool
  pub inspect : Text → Action S (Option TaskClaimSnapshot)
  pub release_if_matches : TaskClaimSnapshot → Action S Bool

-- How an operation leaves the set of claimed identifiers, by its result; `copies` counts the claims
-- of a snapshot's identifier that have its claim identity.
module _ {S : Type 0} (holds : S → Text → Bool) (copies : S → TaskClaimSnapshot → ℕ) where
  abbrev pub Same : S → S → Type 0
  Same s s' = (u : Text) → holds s' u ≡ holds s u

  -- The claim of `t` is gone, and no other.
  abbrev pub Freed : Text → S → S → Type 0
  Freed t s s' = (u : Text) → holds s' u ≡ (if text_eq t u then false else holds s u)

  -- `true`: the identifier was free and is now claimed, if it is not empty. `false`: it was claimed
  -- before.
  abbrev pub ClaimPost : Text → S → Result Bool × S → Type 0
  ClaimPost t s (ok true, s') =
      (holds s t ≡ false)
      × (is_empty t ≡ false → (u : Text) → holds s' u ≡ text_eq t u || holds s u)
  ClaimPost t s (ok false, s') = (holds s t ≡ true) × Same s s'
  ClaimPost t s (err e, s') = Same s s'

  abbrev pub ReleasePost : Text → S → Result (Unit {0}) × S → Type 0
  ReleasePost t s (ok _, s') = Freed t s s'
  ReleasePost t s (err e, s') = Same s s'

  abbrev pub HasPost : Text → S → Result Bool × S → Type 0
  HasPost t s (ok b, s') = (b ≡ holds s t) × Same s s'
  HasPost t s (err e, s') = Same s s'

  abbrev pub InspectPost : Text → S → Result (Option TaskClaimSnapshot) × S → Type 0
  InspectPost t s (ok none, s') = Same s s'
  InspectPost t s (ok (some r), s') =
      (r.task_id ≡ t) × (holds s t ≡ true) × Same s s' × ((copies s r == 0) ≡ false)
  InspectPost t s (err e, s') = Same s s'

  -- `true`: one claim that the snapshot is of is gone, and no other claim, be it of another identifier
  -- or made anew. `false`: there was no such claim, and nothing changed.
  abbrev pub MatchesPost : TaskClaimSnapshot → S → Result Bool × S → Type 0
  MatchesPost r s (ok true, s') =
      (holds s r.task_id ≡ true)
      × ((u : Text) → text_eq r.task_id u ≡ false → holds s' u ≡ holds s u)
      × (copies s r ≡ suc (copies s' r))
      × ((q : TaskClaimSnapshot) → same_claim r q ≡ false → copies s' q ≡ copies s q)
  MatchesPost r s (ok false, s') = (copies s r ≡ 0) × Same s s'
  MatchesPost r s (err e, s') = Same s s'

-- Which identifiers a store fences, and what the operations promise of that, from the states that
-- the store can be in.
pub record ClaimLaws {S : Type 0} (c : TaskClaimStore S) (holds : S → Text → Bool)
    (copies : S → TaskClaimSnapshot → ℕ) (IsSound : S → Type 0) : Type 0 where
  pub claim_law :
      (t : Text) (now id : Filled) (s : S)
      → IsSound s
      → ClaimPost holds copies t s (c.claim t now id s) × IsSound (c.claim t now id s).1
  pub release_law :
      (t : Text) (s : S)
      → IsSound s
      → ReleasePost holds copies t s (c.release t s) × IsSound (c.release t s).1
  pub has_law :
      (t : Text) (s : S) → IsSound s → HasPost holds copies t s (c.has t s) × IsSound (c.has t s).1
  pub inspect_law :
      (t : Text) (s : S)
      → IsSound s
      → InspectPost holds copies t s (c.inspect t s) × IsSound (c.inspect t s).1
  pub matches_law :
      (r : TaskClaimSnapshot) (s : S)
      → IsSound s
      → MatchesPost holds copies r s (c.release_if_matches r s)
        × IsSound (c.release_if_matches r s).1
