-- ===== src/Tasks/ClaimStore/JsonFile.antt =====
-- src/tasks/task-claim-store.ts: `JsonFileTaskClaimStore`. The file is what `JSON.parse` makes of
-- it. An operation holds the lock of the file while it reads, changes and writes; `faults` says,
-- for the operations to come, whether the lock is got and whether the platform then writes.
pub mod Copies
pub mod Laws
pub mod Promises
use agentlily_runtime.Common.{
  Text, ◌≡◌, Bool, true, false, not, ◌&&◌, ◌||◌, Option, none, some, List, [], ◌∷◌, ◌++◌, any, find,
  ℕ, ltb, is_blank, get_or, text_eq, if◌then◌else◌,
}
use agentlily_runtime.Common.Value.{Number, nat, not_nat, Unknown, str, not_str}
use agentlily_runtime.Effects.{Action, return, throw, lift, catch, ◌>>=◌, ◌>>◌}
use agentlily_runtime.Errors.{
  Result, ok, err, Error, runtime_error, range_error, type_error, foreign, RuntimeErrorCode,
  storage_corrupted, storage_locked,
}
use agentlily_runtime.Errors
use agentlily_runtime.Tasks.ClaimStore.{
  Filled, is_empty, text_of, TaskClaimRecord, TaskClaimSnapshot, TaskClaimStore,
}

-- An element of the stored array: an object with the fields of a record, of their types, or not.
pub data Element : Type 0 where
  record_of : TaskClaimRecord → Element
  invalid : Element

pub data Contents : Type 0 where
  missing blank not_json not_array : Contents
  array : List Element → Contents

-- A call of the file system that fails in a write: the making of the directory, the write of the
-- temporary file, which may leave anything of it, or the rename; and whether the temporary file can
-- then be removed.
pub data WriteFault : Type 0 where
  no_directory : WriteFault
  torn : (left : Option Contents) → (removes : Bool) → WriteFault
  not_renamed : (removes : Bool) → WriteFault

pub data Fault : Type 0 where
  locked : Fault
  unwritable : WriteFault → Fault

-- The stored file, the temporary file of an operation, which has a name of its own, and the faults to
-- come.
pub record File : Type 0 where
  pub contents : Contents
  pub temp : Option Contents
  pub faults : List (Option Fault)

abbrev pub default_lock_timeout_ms : ℕ
default_lock_timeout_ms = 5000

abbrev pub default_lock_retry_delay_ms : ℕ
default_lock_retry_delay_ms = 10

abbrev pub max_timer_delay_ms : ℕ
max_timer_delay_ms = 2147483647

-- What the constructor keeps, beside the path as it is resolved.
pub record Settings : Type 0 where
  pub file_path : Text
  pub lock_timeout_ms : ℕ
  pub lock_retry_delay_ms : ℕ

unfoldable pub validate_timer_option : Number → ℕ → Result ℕ
validate_timer_option (nat n) minimum =
    if ltb n minimum || ltb max_timer_delay_ms n then err range_error else ok n
validate_timer_option not_nat minimum = err range_error

unfoldable pub init : Unknown → Option Number → Option Number → Result Settings
unfolding validate_timer_option
init not_str timeout delay = err type_error
init (str path) timeout delay =
    if is_blank path
    then err type_error
    else Errors.◌>>=◌ (validate_timer_option (get_or timeout (nat default_lock_timeout_ms)) 0) λ t.
      Errors.◌>>=◌ (validate_timer_option (get_or delay (nat default_lock_retry_delay_ms)) 1)
        λ d. ok (record { file_path = path; lock_timeout_ms = t; lock_retry_delay_ms = d })

-- No identity, or one that is not empty.
abbrev pub is_identity : Option Text → Bool
is_identity none = true
is_identity (some id) = not (is_empty id)

-- `isTaskClaimRecord`: the texts of a record are not empty.
unfoldable pub is_task_claim_record : TaskClaimRecord → Bool
is_task_claim_record c =
    not (is_empty c.task_id) && not (is_empty c.claimed_at) && is_identity c.claim_id

-- `findIndex` of an invalid element, and the array as records.
unfoldable pub records : List Element → Result (List TaskClaimRecord)
unfolding is_task_claim_record
records [] = ok []
records (record_of c ∷ es) =
    let rest = Errors.◌>>=◌ (records es) λ rest. ok (c ∷ rest) in
    if is_task_claim_record c then rest else err (runtime_error storage_corrupted)
records (invalid ∷ es) = err (runtime_error storage_corrupted)

unfoldable pub load_claims : Contents → Result (List TaskClaimRecord)
unfolding records
load_claims missing = ok []
load_claims blank = ok []
load_claims not_json = err (runtime_error storage_corrupted)
load_claims not_array = err (runtime_error storage_corrupted)
load_claims (array es) = records es

abbrev pub elements : List TaskClaimRecord → List Element
elements [] = []
elements (c ∷ cs) = record_of c ∷ elements cs

abbrev pub make_directory : Option WriteFault → Action File (Unit {0})
make_directory (some no_directory) = throw foreign
make_directory _ = return tt

-- `writeFile(tempPath, data)`
unfoldable pub write_file : Option WriteFault → List Element → Action File (Unit {0})
write_file (some (torn left removes)) es f = (err foreign, record f { temp = left })
write_file _ es f = (ok tt, record f { temp = some (array es) })

-- `rename(tempPath, storagePath)`
unfoldable pub rename : Option WriteFault → Option Contents → Action File (Unit {0})
rename (some (not_renamed removes)) temp f = (err foreign, f)
rename _ none f = (err foreign, f)
rename _ (some new) f = (ok tt, record f { contents = new; temp = none })

-- `rm(tempPath, { force: true }).catch(() => undefined)`
unfoldable pub remove_temp : Option WriteFault → Action File (Unit {0})
remove_temp (some (torn left true)) f = (ok tt, record f { temp = none })
remove_temp (some (not_renamed true)) f = (ok tt, record f { temp = none })
remove_temp _ f = (ok tt, f)

-- `flushAtomic`, with the fault of the operation that it ends.
unfoldable pub flush_atomic : Option WriteFault → List TaskClaimRecord → Action File (Unit {0})
unfolding write_file rename remove_temp
flush_atomic fault cs = do
  make_directory fault
  catch (write_file fault (elements cs) >> (λ f. rename fault f.temp f))
      (λ e. remove_temp fault >> throw e)

-- What an operation does under the lock, given the claims read: it answers, or answers after
-- writing.
pub data Plan (A : Type 0) : Type 0 where
  answer : A → Plan A
  write : A → List TaskClaimRecord → Plan A

module _ {A : Type 0} where
  unfoldable pub carry_out : Option WriteFault → Plan A → Action File A
  unfolding flush_atomic
  carry_out fault (answer a) = return a
  carry_out fault (write a cs) = flush_atomic fault cs >> return a

  -- The load, and what follows it.
  unfoldable pub under_lock : Option WriteFault → (List TaskClaimRecord → Plan A) → Action File A
  unfolding load_claims carry_out
  under_lock fault plan f = elim (load_claims f.contents) [
    | err e ↦ (err e, f)
    | ok cs ↦ carry_out fault (plan cs) f
  ]

  -- `serializeFileOperation`: with no lock the operation throws `STORAGE_LOCKED`.
  unfoldable pub attempt : List (Option Fault) → (List TaskClaimRecord → Plan A) → Action File A
  unfolding under_lock
  attempt [] plan f = under_lock none plan f
  attempt (none ∷ rest) plan f = under_lock none plan (record f { faults = rest })
  attempt (some locked ∷ rest) plan f =
      (err (runtime_error storage_locked), record f { faults = rest })
  attempt (some (unwritable fault) ∷ rest) plan f =
      under_lock (some fault) plan (record f { faults = rest })

  unfoldable pub serialize_file_operation : (List TaskClaimRecord → Plan A) → Action File A
  unfolding attempt
  serialize_file_operation plan f = attempt f.faults plan f

abbrev pub is_for : Text → TaskClaimRecord → Bool
is_for task_id c = text_eq c.task_id task_id

unfoldable pub claim : (task_id : Text) (now claim_id : Filled) → Action File Bool
unfolding serialize_file_operation
claim task_id now claim_id = serialize_file_operation λ claims.
    if any (is_for task_id) claims
    then answer false
    else write true (
        claims
        ++ record {
          task_id = task_id;
          claimed_at = text_of now;
          claim_id = some (text_of claim_id);
        }
          ∷ [])

-- `claims.filter((claim) => claim.taskId !== taskId)`
unfoldable pub others : Text → List TaskClaimRecord → List TaskClaimRecord
others task_id [] = []
others task_id (c ∷ cs) =
    let rest = others task_id cs in if is_for task_id c then rest else c ∷ rest

-- The lengths of the two lists differ exactly if the filter dropped a claim.
unfoldable pub release : Text → Action File (Unit {0})
unfolding serialize_file_operation others
release task_id =
    serialize_file_operation
      λ claims. if any (is_for task_id) claims then write tt (others task_id claims) else answer tt

unfoldable pub has_claim : Text → Action File Bool
unfolding serialize_file_operation
has_claim task_id = serialize_file_operation λ claims. answer (any (is_for task_id) claims)

-- `asSnapshot`
unfoldable pub as_snapshot : Option TaskClaimRecord → Option TaskClaimSnapshot
as_snapshot none = none
as_snapshot (some c) = elim c.claim_id [
  | none ↦ none
  | some id ↦ some (record { task_id = c.task_id; claimed_at = c.claimed_at; claim_id = id })
]

unfoldable pub inspect : Text → Action File (Option TaskClaimSnapshot)
unfolding serialize_file_operation as_snapshot
inspect task_id =
    serialize_file_operation λ claims. answer (as_snapshot (find (is_for task_id) claims))

abbrev pub has_id : Option Text → Text → Bool
has_id none id = false
has_id (some i) id = text_eq i id

-- `findIndex` by identifier and generation, and `splice`.
unfoldable pub splice : TaskClaimSnapshot → List TaskClaimRecord → Option (List TaskClaimRecord)
splice s [] = none
splice s (c ∷ cs) =
    if is_for s.task_id c && has_id c.claim_id s.claim_id
    then some cs
    else elim (splice s cs) [ none ↦ none | some rest ↦ some (c ∷ rest) ]

unfoldable pub release_if_matches : TaskClaimSnapshot → Action File Bool
unfolding serialize_file_operation splice
release_if_matches s =
    serialize_file_operation
      λ claims. elim (splice s claims) [ none ↦ answer false | some rest ↦ write true rest ]

abbrev pub json_file_task_claim_store : TaskClaimStore File
json_file_task_claim_store = record {
  claim = claim;
  release = release;
  has = has_claim;
  inspect = inspect;
  release_if_matches = release_if_matches;
}
