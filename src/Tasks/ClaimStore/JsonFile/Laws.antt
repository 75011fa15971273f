-- ===== src/Tasks/ClaimStore/JsonFile/Laws.antt =====
-- What an operation of the file store does to the file, whatever faults it meets.
use agentlily_runtime.Common.{
  Text, ◌≡◌, refl, Bool, true, false, ◌||◌, inl, inr, Option, none, some, List, [], ◌∷◌, ◌++◌,
  arith, any, find, text_eq, text_eq_iff, if◌then◌else◌, Option-cases,
}
use agentlily_runtime.Errors.{Result, ok, err, Error, Result-cases}
use agentlily_runtime.Tasks.ClaimStore.{TaskClaimRecord, TaskClaimSnapshot}
use agentlily_runtime.Tasks.ClaimStore.JsonFile.{
  array, WriteFault, no_directory, torn, not_renamed, write_file, rename, remove_temp, Fault,
  locked, unwritable, File, load_claims, elements, flush_atomic, Plan, answer, write, carry_out,
  under_lock, attempt, serialize_file_operation, is_for, others, as_snapshot, splice,
}

abbrev pub held_by : Result (List TaskClaimRecord) → Text → Bool
held_by (ok cs) u = any (is_for u) cs
held_by (err e) u = true

-- An identifier is fenced if the file has a claim of it; a file that cannot be read fences all.
unfoldable pub holds : File → Text → Bool
holds f u = held_by (load_claims f.contents) u

-- The ways in which an operation under the lock can end.
pub data Ran {A : Type 0} (plan : List TaskClaimRecord → Plan A) (f : File) (r : Result A × File)
    : Type 0 where
  failed : (e : Error) → r.0 ≡ err e → r.1.contents ≡ f.contents → Ran plan f r
  answered :
      (cs : List TaskClaimRecord) (a : A)
      → load_claims f.contents ≡ ok cs
      → plan cs ≡ answer a
      → r.0 ≡ ok a
      → r.1.contents ≡ f.contents
      → Ran plan f r
  wrote :
      (cs cs' : List TaskClaimRecord) (a : A)
      → load_claims f.contents ≡ ok cs
      → plan cs ≡ write a cs'
      → r.0 ≡ ok a
      → r.1.contents ≡ array (elements cs')
      → Ran plan f r

module _ {A : Type 0} (plan : List TaskClaimRecord → Plan A) where
  planned :
      (fault : Option WriteFault) (f : File) (cs : List TaskClaimRecord) (p : Plan A)
      → load_claims f.contents ≡ ok cs
      → plan cs ≡ p
      → Ran plan f (carry_out fault p f)
  unfolding carry_out flush_atomic write_file rename remove_temp
  planned fault f cs (answer a) l e = answered cs a l e refl refl
  planned none f cs (write a cs') l e = wrote cs cs' a l e refl refl
  planned (some no_directory) f cs (write a cs') l e = failed _ refl refl
  planned (some (torn left true)) f cs (write a cs') l e = failed _ refl refl
  planned (some (torn left false)) f cs (write a cs') l e = failed _ refl refl
  planned (some (not_renamed true)) f cs (write a cs') l e = failed _ refl refl
  planned (some (not_renamed false)) f cs (write a cs') l e = failed _ refl refl

  under_lock-Ran : (fault : Option WriteFault) (f : File) → Ran plan f (under_lock fault plan f)
  unfolding under_lock
  under_lock-Ran fault f = elim (Result-cases (load_claims f.contents)) [
    | inr (e, l) ↦ rw (l, under_lock) (failed e refl refl)
    | inl (cs, l) ↦ rw (l, under_lock) (planned fault f cs (plan cs) l refl)
  ]

  -- The faults that are still to come are no part of what was read.
  forget :
      (f : File) (rest : List (Option Fault)) (r : Result A × File)
      → Ran plan (record f { faults = rest }) r
      → Ran plan f r
  forget f rest r (failed e a b) = failed e a b
  forget f rest r (answered cs a l p x y) = answered cs a l p x y
  forget f rest r (wrote cs cs' a l p x y) = wrote cs cs' a l p x y

  attempt-Ran : (faults : List (Option Fault)) (f : File) → Ran plan f (attempt faults plan f)
  unfolding attempt
  attempt-Ran [] f = under_lock-Ran none f
  attempt-Ran (none ∷ rest) f = forget f rest _ (under_lock-Ran none (record f { faults = rest }))
  attempt-Ran (some locked ∷ rest) f = failed _ refl refl
  attempt-Ran (some (unwritable fault) ∷ rest) f =
      forget f rest _ (under_lock-Ran (some fault) (record f { faults = rest }))

  pub serialize-Ran : (f : File) → Ran plan f (serialize_file_operation plan f)
  unfolding serialize_file_operation
  serialize-Ran f = attempt-Ran f.faults f

-- The lists that the operations write.
pub any-append :
    (u : Text) (cs : List TaskClaimRecord) (c : TaskClaimRecord)
    → any (is_for u) (cs ++ c ∷ []) ≡ is_for u c || any (is_for u) cs
any-append u [] c = ground arith
any-append u (d ∷ cs) c = ground (arith, any-append u cs c)

pub any-others :
    (t u : Text) (cs : List TaskClaimRecord)
    → any (is_for u) (others t cs) ≡ (if text_eq t u then false else any (is_for u) cs)
unfolding others
any-others t u [] = ground arith
any-others t u (c ∷ cs) =
    ground
      (arith, any-others t u cs, text_eq_iff t u, text_eq_iff c.task_id t, text_eq_iff c.task_id u)

pub any-splice :
    (s : TaskClaimSnapshot) (u : Text) (cs rest : List TaskClaimRecord)
    → splice s cs ≡ some rest
    → (any (is_for s.task_id) cs ≡ true)
      × (text_eq s.task_id u ≡ false → any (is_for u) rest ≡ any (is_for u) cs)
unfolding splice
any-splice s u [] rest e = cc
any-splice s u (c ∷ cs) rest e = elim (Option-cases (splice s cs)) [
  | inl absent ↦ (
    ground arith,
    ground
        (arith, text_eq_iff c.task_id s.task_id, text_eq_iff c.task_id u, text_eq_iff s.task_id u),
  )
  | inr (r, found) ↦
      let (here, there) = any-splice s u cs r found in
      (
        ground (arith, here),
        ground (
          arith,
          there,
          text_eq_iff c.task_id s.task_id,
          text_eq_iff c.task_id u,
          text_eq_iff s.task_id u,
        ),
      )
]

pub find-as_snapshot :
    (t : Text) (cs : List TaskClaimRecord) (r : TaskClaimSnapshot)
    → as_snapshot (find (is_for t) cs) ≡ some r
    → (r.task_id ≡ t) × (any (is_for t) cs ≡ true)
unfolding as_snapshot
find-as_snapshot t [] r e = cc
find-as_snapshot t (c ∷ cs) r e = ground (arith, find-as_snapshot t cs r, text_eq_iff c.task_id t)
