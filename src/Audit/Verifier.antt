-- ===== src/Audit/Verifier.antt =====
-- src/audit/runtime-audit-verifier.ts. A file is its complete lines and what follows the last line
-- break; an empty file has neither. `JSON.parse` and SHA-256 are parameters. The texts of reasons
-- are left out.
use agentlily_runtime.Common.{
  ℕ, ◌+◌, Bool, true, false, List, [], ◌∷◌, Option, none, some, Text, ltb, length, text_eq, ◌==◌,
  if◌then◌else◌,
}
use agentlily_runtime.Common.Encoding.{byte_length}
use agentlily_runtime.Audit.CanonicalJson.{Value, ◌>>=◌, canonical_audit_json}
use agentlily_runtime.Audit.Schema.{verify_parsed_runtime_audit_record}

pub record AuditFile : Type 0 where
  pub lines : List Text
  pub tail : Text

-- What the path names: nothing, a link or something that is no file, a file that cannot be read, or
-- a file.
pub data AuditPath : Type 0 where
  missing irregular unreadable : AuditPath
  regular : AuditFile → AuditPath

pub record RuntimeAuditVerificationResult : Type 0 where
  pub is_ok : Bool
  pub record_count : ℕ
  pub head_digest : Option Text
  pub invalid_record : Option ℕ

abbrev pub verified : ℕ → Option Text → RuntimeAuditVerificationResult
verified count head = record {
  is_ok = true;
  record_count = count;
  head_digest = head;
  invalid_record = none;
}

abbrev pub refused : ℕ → Option Text → Option ℕ → RuntimeAuditVerificationResult
refused count head invalid = record {
  is_ok = false;
  record_count = count;
  head_digest = head;
  invalid_record = invalid;
}

module _ (sha256 : Text → Text) (parse : Text → Option Value) (max_record_bytes : ℕ) where
  -- The parsed line, if it is in canonical form.
  unfoldable pub parsed_canonical : Text → Option Value → Option Value
  unfolding canonical_audit_json
  parsed_canonical line none = none
  parsed_canonical line (some parsed) = elim (canonical_audit_json 0 parsed) [
    | none ↦ none
    | some s ↦ if text_eq s line then some parsed else none
  ]

  -- One round of the loop: the digest of a good line.
  unfoldable pub check_line : ℕ → Option Text → Text → Option Text
  unfolding parsed_canonical verify_parsed_runtime_audit_record byte_length
  check_line sequence head line =
      if length line == 0
      then none
      else (if ltb max_record_bytes (byte_length line + 1)
          then none
          else parsed_canonical line (parse line) >>= λ parsed.
              verify_parsed_runtime_audit_record sha256 parsed sequence head)

  unfoldable pub at_end : ℕ → Option Text → Text → RuntimeAuditVerificationResult
  at_end count head [] = verified count head
  at_end count head (c ∷ tail) = refused count head (some (count + 1))

  unfoldable pub verify_lines : ℕ → Option Text → List Text → Text → RuntimeAuditVerificationResult
  unfolding check_line at_end
  verify_lines index head [] tail = at_end index head tail
  verify_lines index head (line ∷ lines) tail = elim (check_line (index + 1) head line) [
    | none ↦ refused index head (some (index + 1))
    | some digest ↦ verify_lines (index + 1) (some digest) lines tail
  ]

  unfoldable pub verify_runtime_audit_ledger : AuditPath → RuntimeAuditVerificationResult
  unfolding verify_lines
  verify_runtime_audit_ledger missing = verified 0 none
  verify_runtime_audit_ledger irregular = refused 0 none none
  verify_runtime_audit_ledger unreadable = refused 0 none none
  verify_runtime_audit_ledger (regular file) = verify_lines 0 none file.lines file.tail
