-- ===== src/Audit/Schema.antt =====
-- src/audit/runtime-audit-schema.ts: the form of a record, and the check of a parsed one. SHA-256 is
-- a parameter.
use agentlily_runtime.Common.{
  ℕ, ◌-◌, ◌*◌, ◌^◌, Bool, true, false, ◌&&◌, ◌||◌, not, List, [], ◌∷◌, Option, none, some, Text,
  lit, ltb, leb, ◌==◌, all, length, text_eq, is_some, if◌then◌else◌,
}
use agentlily_runtime.Common.Dict.{member}
use agentlily_runtime.Audit.CanonicalJson.{
  Value, null, text, nat, object, Fields, end, field, canonical_audit_json, exact_audit_keys,
}

abbrev pub runtime_audit_version : Text
runtime_audit_version = lit "agentlily.runtime-audit/v1"

abbrev pub default_runtime_audit_max_record_bytes : ℕ
default_runtime_audit_max_record_bytes = 64 * 1024

abbrev is_hex : ℕ → Bool
is_hex c = (leb b'0' c && leb c b'9') || (leb b'a' c && leb c b'f')

-- `/^[0-9a-f]{64}$/`
unfoldable pub runtime_audit_sha256_hex : Text → Bool
runtime_audit_sha256_hex value = length value == 64 && all is_hex value

abbrev pub runtime_audit_event_names : List Text
runtime_audit_event_names =
    lit "runtime.internal.error"
    ∷ lit "runtime.started"
    ∷ lit "runtime.stopped"
    ∷ lit "runtime.task.received"
    ∷ lit "runtime.task.completed"
    ∷ lit "runtime.task.failed"
    ∷ lit "runtime.task.reconciled"
    ∷ lit "runtime.tool.invoked"
    ∷ lit "runtime.tool.denied"
    ∷ []

abbrev pub is_event_name : Value → Bool
is_event_name (text name) = member name runtime_audit_event_names
is_event_name _ = false

-- `value.key`
unfoldable pub get_field : Text → Fields → Option Value
get_field key end = none
get_field key (field k value fields) = if text_eq k key then some value else get_field key fields

-- The event of a record: exactly a name of the catalog and a payload that has a canonical form.
abbrev pub event_keys : List Text
event_keys = lit "name" ∷ lit "payload" ∷ []

unfoldable pub is_event_fields : Option Value → Option Value → Bool
unfolding canonical_audit_json
is_event_fields (some name) (some payload) =
    is_event_name name && is_some (canonical_audit_json 0 payload)
is_event_fields _ _ = false

-- `assertRuntimeEventForAudit` returns.
unfoldable pub assert_runtime_event_for_audit : Value → Bool
unfolding exact_audit_keys get_field is_event_fields
assert_runtime_event_for_audit (object fields) =
    exact_audit_keys fields event_keys
    && is_event_fields (get_field (lit "name") fields) (get_field (lit "payload") fields)
assert_runtime_event_for_audit _ = false

-- A digest, or null.
abbrev pub digest_value : Option Text → Value
digest_value none = null
digest_value (some digest) = text digest

-- `{ event, previousDigest, sequence, version }`
abbrev pub body_of : Value → Value → Value → Value → Value
body_of event previous_digest sequence version = object (
    field (lit "event") event (
      field (lit "previousDigest") previous_digest
        (field (lit "sequence") sequence (field (lit "version") version end))))

-- `{ ...body, recordDigest }`
abbrev pub record_of : Value → Value → Value → Value → Value → Value
record_of event previous_digest record_digest sequence version = object (
    field (lit "event") event (
      field (lit "previousDigest") previous_digest (
        field (lit "recordDigest") record_digest
          (field (lit "sequence") sequence (field (lit "version") version end)))))

abbrev pub record_keys : List Text
record_keys =
    lit "event" ∷ lit "previousDigest" ∷ lit "recordDigest" ∷ lit "sequence" ∷ lit "version" ∷ []

-- `value === expected`
abbrev pub is_version : Value → Bool
is_version (text s) = text_eq s runtime_audit_version
is_version _ = false

abbrev pub max_safe_integer : ℕ
max_safe_integer = 2 ^ 53 - 1

abbrev pub is_sequence : ℕ → Value → Bool
is_sequence expected (nat n) = leb n max_safe_integer && n == expected && not (ltb expected 1)
is_sequence expected _ = false

abbrev pub is_previous : Option Text → Value → Bool
is_previous none null = true
is_previous (some digest) (text s) = text_eq s digest
is_previous _ _ = false

module _ (sha256 : Text → Text) where
  -- The recomputed digest against the recorded one.
  unfoldable pub same_digest : Option Text → Value → Option Text
  unfolding runtime_audit_sha256_hex
  same_digest (some body) (text digest) =
      if runtime_audit_sha256_hex digest && text_eq (sha256 body) digest then some digest else none
  same_digest _ _ = none

  -- From the tests of the fields on.
  unfoldable pub verify_fields :
      ℕ → Option Text → Value → Value → Value → Value → Value → Option Text
  unfolding same_digest canonical_audit_json assert_runtime_event_for_audit
  verify_fields expected_sequence expected_previous event previous_digest record_digest sequence
        version =
      if is_version version
        && is_sequence expected_sequence sequence
        && is_previous expected_previous previous_digest
        && assert_runtime_event_for_audit event
      then same_digest (canonical_audit_json 0 (body_of event previous_digest sequence version))
          record_digest
      else none

  -- `verifyParsedRuntimeAuditRecord`: the digest of a good record; `none` is an error, whose text is
  -- left out.
  unfoldable pub verify_parsed_runtime_audit_record : Value → ℕ → Option Text → Option Text
  unfolding verify_fields
  verify_parsed_runtime_audit_record
        (object (
          field k1 event
            (field k2 previous (field k3 digest (field k4 sequence (field k5 version end))))))
        expected_sequence expected_previous =
      if exact_audit_keys
        (field k1 event
          (field k2 previous (field k3 digest (field k4 sequence (field k5 version end)))))
        record_keys
      then verify_fields expected_sequence expected_previous event previous digest sequence version
      else none
  verify_parsed_runtime_audit_record _ _ _ = none
