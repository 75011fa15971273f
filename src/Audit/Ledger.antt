-- ===== src/Audit/Ledger.antt =====
-- src/audit/runtime-audit-ledger.ts: the writer. The file that it appends to stands beside its state.
-- The outcomes of the operating system's calls are arguments.
mod Ready
mod RoundTrip
mod Tests
use agentlily_runtime.Common.{
  ℕ, ◌+◌, Bool, true, false, ◌&&◌, ◌||◌, not, List, [], ◌∷◌, ◌++◌, Option, none, some, Text, ltb,
  is_blank, if◌then◌else◌,
}
use agentlily_runtime.Common.Dict.{member, add, remove}
use agentlily_runtime.Common.Encoding.{byte_length}
use agentlily_runtime.Common.Value.{Number, not_nat}
use agentlily_runtime.Audit.CanonicalJson.{Value, text, nat, canonical_audit_json}
use agentlily_runtime.Audit.Schema.{
  runtime_audit_version, default_runtime_audit_max_record_bytes, max_safe_integer,
  assert_runtime_event_for_audit, digest_value, body_of, record_of,
}
use agentlily_runtime.Audit.Verifier.{
  AuditFile, AuditPath, missing, irregular, unreadable, regular, RuntimeAuditVerificationResult,
  verify_runtime_audit_ledger,
}

pub data RuntimeAuditLedgerErrorCode : Type 0 where
  audit_already_open audit_canonicalization_failed audit_corrupted : RuntimeAuditLedgerErrorCode
  audit_io_failed audit_non_regular_file audit_record_too_large : RuntimeAuditLedgerErrorCode
  audit_unhealthy : RuntimeAuditLedgerErrorCode

-- `io_error` is what a call of the operating system throws.
pub data Thrown : Type 0 where
  audit_error : RuntimeAuditLedgerErrorCode → Thrown
  io_error invalid_argument : Thrown

pub data Returns (A : Type 0) : Type 0 where
  returned : A → Returns A
  thrown : Thrown → Returns A

-- `has_descriptor` is `fileDescriptor !== null`.
pub record Ledger : Type 0 where
  pub max_record_bytes : ℕ
  pub has_descriptor : Bool
  pub record_count : ℕ
  pub head_digest : Option Text
  pub is_healthy : Bool
  pub is_closed : Bool

-- How a write of a line ends: in full and on the disk, in full with a failing `fsync`, in part (with
-- the part that reached the file), or by throwing (likewise).
pub data WriteOutcome : Type 0 where
  synced fsync_failed : WriteOutcome
  short failed : Text → WriteOutcome

-- A record that is ready to be written.
pub record Prepared : Type 0 where
  pub line : Text
  pub digest : Text
  pub value : Value

unfoldable pub append_line : Text → AuditFile → AuditFile
append_line line file = record { lines = file.lines ++ (file.tail ++ line) ∷ []; tail = [] }

unfoldable pub append_part : Text → AuditFile → AuditFile
append_part part file = record { lines = file.lines; tail = file.tail ++ part }

unfoldable pub mark_unhealthy : Ledger → Ledger
mark_unhealthy ledger = record ledger { is_healthy = false }

module _ (sha256 : Text → Text) where
  -- The line of a record, if it is not too long. The line break is one byte more.
  unfoldable pub sized : ℕ → Value → Text → Option Text → Returns Prepared
  unfolding byte_length
  sized max_record_bytes value digest none = thrown (audit_error audit_canonicalization_failed)
  sized max_record_bytes value digest (some line) =
      if ltb max_record_bytes (byte_length line + 1)
      then thrown (audit_error audit_record_too_large)
      else returned (record { line = line; digest = digest; value = value })

  unfoldable pub with_digest : ℕ → Value → Option Text → ℕ → Option Text → Returns Prepared
  unfolding sized canonical_audit_json
  with_digest max_record_bytes event previous sequence none =
      thrown (audit_error audit_canonicalization_failed)
  with_digest max_record_bytes event previous sequence (some body) =
      let value =
        record_of event (digest_value previous) (text (sha256 body)) (nat sequence)
          (text runtime_audit_version) in
      sized max_record_bytes value (sha256 body) (canonical_audit_json 0 value)

  -- The body of the `try` of `append` up to the write.
  unfoldable pub prepare : Ledger → Value → Returns Prepared
  unfolding with_digest canonical_audit_json assert_runtime_event_for_audit
  prepare ledger event =
      if not (assert_runtime_event_for_audit event)
      then thrown (audit_error audit_canonicalization_failed)
      else with_digest ledger.max_record_bytes event ledger.head_digest (ledger.record_count + 1) (
          canonical_audit_json 0 (
            body_of event (digest_value ledger.head_digest) (nat (ledger.record_count + 1))
              (text runtime_audit_version)))

  -- The write, and the handler of the `try`.
  unfoldable pub write :
      Ledger → AuditFile → Returns Prepared → WriteOutcome → Returns Value × Ledger × AuditFile
  unfolding append_line append_part mark_unhealthy
  write ledger file (thrown e) outcome = (thrown e, mark_unhealthy ledger, file)
  write ledger file (returned p) synced = (
    returned p.value,
    record ledger { record_count = ledger.record_count + 1; head_digest = some p.digest },
    append_line p.line file,
  )
  write ledger file (returned p) fsync_failed =
      (thrown io_error, mark_unhealthy ledger, append_line p.line file)
  write ledger file (returned p) (short part) =
      (thrown (audit_error audit_io_failed), mark_unhealthy ledger, append_part part file)
  write ledger file (returned p) (failed part) =
      (thrown io_error, mark_unhealthy ledger, append_part part file)

  unfoldable pub append :
      Value → WriteOutcome → Ledger → AuditFile → Returns Value × Ledger × AuditFile
  unfolding prepare write
  append event outcome ledger file =
      if not ledger.is_healthy
      then (thrown (audit_error audit_unhealthy), ledger, file)
      else (if ledger.is_closed || not ledger.has_descriptor
          then (thrown (audit_error audit_unhealthy), ledger, file)
          else write ledger file (prepare ledger event) outcome)

  -- A history of appends, each with the outcome of its write.
  unfoldable pub append_all : List (Value × WriteOutcome) → Ledger → AuditFile → Ledger × AuditFile
  unfolding append
  append_all [] ledger file = (ledger, file)
  append_all ((event, outcome) ∷ events) ledger file =
      let (result, ledger', file') = append event outcome ledger file in
      append_all events ledger' file'

-- `close`, with whether `fsync` and `close` of the descriptor throw; `active` is the set of open paths.
unfoldable pub close :
    Text
    → (fsync_throws close_throws : Bool) → Ledger
    → List Text
    → Returns (Unit {0}) × Ledger × List Text
unfolding mark_unhealthy
close path fsync_throws close_throws ledger active =
    let closed = record ledger { is_closed = true; has_descriptor = false } in
    if ledger.is_closed
    then (returned tt, ledger, active)
    else (if ledger.has_descriptor && (fsync_throws || close_throws)
        then (thrown io_error, mark_unhealthy closed, remove path active)
        else (returned tt, closed, remove path active))

-- `resolveRuntimeAuditMaxRecordBytes`, of src/audit/runtime-audit-schema.ts.
unfoldable pub resolve_runtime_audit_max_record_bytes : Option Number → Returns ℕ
resolve_runtime_audit_max_record_bytes none = returned default_runtime_audit_max_record_bytes
resolve_runtime_audit_max_record_bytes (some not_nat) = thrown invalid_argument
resolve_runtime_audit_max_record_bytes (some (Number.nat n)) =
    if ltb max_safe_integer n || ltb n 1 then thrown invalid_argument else returned n

abbrev pub is_irregular : AuditPath → Bool
is_irregular irregular = true
is_irregular _ = false

module _ (sha256 : Text → Text) (parse : Text → Option Value) where
  -- The body of the constructor's `try`. `opens` says that the directory and the descriptor could be
  -- made, `opened` what the path names then.
  unfoldable pub open_verified :
      ℕ → (before : AuditPath) → (opens : Bool) → (opened : AuditPath) → Returns Ledger
  unfolding verify_runtime_audit_ledger
  open_verified max_record_bytes before opens opened =
      let first = verify_runtime_audit_ledger sha256 parse max_record_bytes before in
      let after = verify_runtime_audit_ledger sha256 parse max_record_bytes opened in
      if not first.is_ok
      then thrown (audit_error audit_corrupted)
      else (if is_irregular opened
          then thrown (audit_error audit_non_regular_file)
          else (if not opens
              then thrown io_error
              else (if not after.is_ok
                  then thrown (audit_error audit_corrupted)
                  else returned (record {
                    max_record_bytes = max_record_bytes;
                    has_descriptor = true;
                    record_count = after.record_count;
                    head_digest = after.head_digest;
                    is_healthy = true;
                    is_closed = false;
                  }))))

  -- A constructor that throws takes its path out of the set again.
  unfoldable pub opened_or_released : Text → List Text → Returns Ledger → Returns Ledger × List Text
  opened_or_released path active (returned ledger) = (returned ledger, add path active)
  opened_or_released path active (thrown e) = (thrown e, remove path (add path active))

  unfoldable pub open_at :
      Text → List Text → AuditPath → Bool → AuditPath → Returns ℕ → Returns Ledger × List Text
  unfolding open_verified opened_or_released
  open_at path active before opens opened (thrown e) = (thrown e, active)
  open_at path active before opens opened (returned max_record_bytes) =
      if member path active
      then (thrown (audit_error audit_already_open), active)
      else opened_or_released path active (open_verified max_record_bytes before opens opened)

  -- The constructor, on a resolved path.
  unfoldable pub open_ledger :
      Text → Option Number → List Text → AuditPath → Bool → AuditPath → Returns Ledger × List Text
  unfolding open_at resolve_runtime_audit_max_record_bytes is_blank
  open_ledger path max_record_bytes active before opens opened =
      if is_blank path
      then (thrown invalid_argument, active)
      else open_at path active before opens opened
          (resolve_runtime_audit_max_record_bytes max_record_bytes)
