-- ===== src/Audit/Ledger/Tests.antt =====
-- A ledger with two records. The digest is 64 zeros, and the parser knows the texts that occur.
use agentlily_runtime.Common.{
  ℕ, ◌≡◌, refl, ◌⊎◌, Bool, true, false, List, [], ◌∷◌, Option, none, some, Text, lit, text_eq,
  if◌then◌else◌, arith,
}
use agentlily_runtime.Audit.CanonicalJson.{
  Value, text, nat, null, object, field, end, canonical_audit_json,
}
use agentlily_runtime.Audit.Accepted.{without_digest}
use agentlily_runtime.Audit.Normal.{read_back}
use agentlily_runtime.Audit.Schema.{
  record_of, body_of, runtime_audit_version, runtime_audit_sha256_hex,
}
use agentlily_runtime.Audit.Tamper.{Collision, same_head_same_lines}
use agentlily_runtime.Audit.Verifier.{AuditFile, verify_lines, verified}
use agentlily_runtime.Audit.Ledger.RoundTrip.{Synced, append_all-Synced, failed_for_good}
use agentlily_runtime.Audit.Ledger.{
  Ledger, WriteOutcome, synced, short, append, append_all, audit_error, audit_io_failed,
  audit_canonicalization_failed, thrown,
}

abbrev zeros : Text
zeros = lit "0000000000000000000000000000000000000000000000000000000000000000"

abbrev sha256 : Text → Text
sha256 s = zeros

zeros_hex : (s : Text) → runtime_audit_sha256_hex (sha256 s) ≡ true
unfolding runtime_audit_sha256_hex
zeros_hex s = refl

abbrev event : Value
event =
    object
      (field (lit "name") (text (lit "runtime.started")) (field (lit "payload") (object end) end))

abbrev version : Value
version = text runtime_audit_version

abbrev first : Value
first = record_of event null (text zeros) (nat 1) version

abbrev second : Value
second = record_of event (text zeros) (text zeros) (nat 2) version

-- The canonical text of a value, or nothing.
abbrev text_of : Option Text → Text
text_of none = []
text_of (some s) = s

abbrev line_of : Value → Text
line_of v = text_of (canonical_audit_json 0 v)

abbrev known : List Value → Text → Option Value
known [] s = none
known (v ∷ vs) s = if text_eq (line_of v) s then some v else known vs s

abbrev parse : Text → Option Value
parse s =
    known
      (first
        ∷ second
        ∷ body_of event null (nat 1) version
        ∷ body_of event (text zeros) (nat 2) version
        ∷ [])
      s

abbrev fresh : Ledger
fresh = record {
  max_record_bytes = 65536;
  has_descriptor = true;
  record_count = 0;
  head_digest = none;
  is_healthy = true;
  is_closed = false;
}

abbrev no_lines : AuditFile
no_lines = record { lines = []; tail = [] }

fresh-Synced : Synced sha256 parse zeros_hex fresh no_lines
unfolding verify_lines
fresh-Synced = record { no_tail = refl; verifies = refl }

abbrev history : List (Value × WriteOutcome)
history = (event, synced) ∷ (event, synced) ∷ []

append_two : (append_all sha256 history fresh no_lines).0.record_count ≡ 2
unfolding append_all text_eq agentlily_runtime.Common.Dict.member
append_two = refl

append_all-Synced_example :
    Synced sha256 parse zeros_hex
      (append_all sha256 history fresh no_lines).0
      (append_all sha256 history fresh no_lines).1
unfolding append text_eq agentlily_runtime.Common.Dict.member
    agentlily_runtime.Audit.Normal.read_back agentlily_runtime.Audit.Normal.normal append_all
append_all-Synced_example =
    append_all-Synced sha256 parse zeros_hex history fresh no_lines (omega arith) fresh-Synced
      (refl, (refl, tt)) refl

-- A write of which five bytes reached the file.
abbrev torn : WriteOutcome
torn = short (lit "{\"eve")

append_partly : append sha256 event torn fresh no_lines ≡ (
  thrown (audit_error audit_io_failed),
  record fresh { is_healthy = false },
  record { lines = []; tail = lit "{\"eve" },
)
unfolding append text_eq agentlily_runtime.Common.Dict.member
append_partly = refl

append_bad_event : append sha256 null synced fresh no_lines ≡ (
  thrown (audit_error audit_canonicalization_failed),
  record fresh { is_healthy = false },
  no_lines,
)
unfolding append
append_bad_event = refl

failed_for_good_example :
    append_all sha256 history
      (record fresh { is_healthy = false })
      (record { lines = []; tail = lit "{\"eve" })
    ≡ (record fresh { is_healthy = false }, record { lines = []; tail = lit "{\"eve" })
failed_for_good_example =
    failed_for_good sha256 event torn fresh (record fresh { is_healthy = false }) no_lines
      (record { lines = []; tail = lit "{\"eve" }) (audit_error audit_io_failed) history refl refl
      refl append_partly

-- The same place in another ledger.
abbrev other_event : Value
other_event =
    object
      (field (lit "name") (text (lit "runtime.stopped")) (field (lit "payload") (object end) end))

abbrev other : Value
other = record_of other_event null (text zeros) (nat 1) version

abbrev parse_either : Text → Option Value
parse_either s =
    known
      (other
        ∷ body_of other_event null (nat 1) version
        ∷ first
        ∷ body_of event null (nat 1) version
        ∷ [])
      s

one_record_passes :
    verify_lines sha256 parse_either 65536 0 none (line_of first ∷ []) [] ≡ verified 1 (some zeros)
unfolding verify_lines text_eq agentlily_runtime.Common.Dict.member
one_record_passes = refl

another_record_passes :
    verify_lines sha256 parse_either 65536 0 none (line_of other ∷ []) [] ≡ verified 1 (some zeros)
unfolding verify_lines text_eq agentlily_runtime.Common.Dict.member
another_record_passes = refl

same_head_same_lines_example : (line_of first ∷ [] ≡ line_of other ∷ []) ⊎ Collision sha256
unfolding text_eq canonical_audit_json read_back without_digest
    agentlily_runtime.Audit.Normal.normal
same_head_same_lines_example =
    same_head_same_lines sha256 parse_either 65536 1 (some zeros) (line_of first ∷ [])
      (line_of other ∷ []) (refl, tt) (refl, tt) one_record_passes another_record_passes
