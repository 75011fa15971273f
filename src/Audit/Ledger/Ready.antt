-- ===== src/Audit/Ledger/Ready.antt =====
-- The line that an append writes passes the check of the verifier.
use agentlily_runtime.Common.{
  ℕ, ◌+◌, ◌≤◌, ◌<◌, ◌≡◌, ◌∙◌, refl, sym, ap, subst, inl, inr, true, false, List, Option, none, some,
  Text, ltb, ◌==◌, length, text_eq, text_eq_refl, arith, Bool-cases, Option-cases,
}
use agentlily_runtime.Common.Encoding.{byte_length}
use agentlily_runtime.Audit.CanonicalJson.{
  Value, nat, text, object, Fields, ◌>>=◌, canonical_audit_json, canonical_fields, in_brackets,
  exact_audit_keys,
}
use agentlily_runtime.Audit.Schema.{
  runtime_audit_version, runtime_audit_sha256_hex, assert_runtime_event_for_audit, digest_value,
  body_of, record_of, is_sequence, is_previous, max_safe_integer, same_digest, verify_fields,
  verify_parsed_runtime_audit_record,
}
use agentlily_runtime.Audit.Verifier.{refused, parsed_canonical, check_line}
use agentlily_runtime.Audit.Ledger.{
  Ledger, Prepared, Returns, returned, thrown, Thrown, sized, with_digest, prepare,
}
use agentlily_runtime.Audit.Normal.{
  normal, IsReadBack, read_back-text, canonical-normal_value, assert-normal,
}

is_previous-digest : (d : Option Text) → is_previous d (digest_value d) ≡ true
is_previous-digest none = refl
is_previous-digest (some s) = text_eq_refl s

digest_value-normal : (d : Option Text) → normal (digest_value d) ≡ digest_value d
unfolding normal
digest_value-normal none = refl
digest_value-normal (some s) = refl

some-injective : {A : Type 0} {a b : A} → some a ≡ some b → a ≡ b
some-injective e = cc

-- An object's text is not empty.
object-filled :
    (fields : Fields) (s : Text)
    → canonical_audit_json 0 (object fields) ≡ some s
    → (length s == 0) ≡ false
unfolding canonical_audit_json
object-filled fields s e = go (canonical_fields 1 fields) e
  where
    go :
        (parts : Option (List Text))
        → (parts >>= λ ps. some (in_brackets b'{' b'}' ps)) ≡ some s
        → (length s == 0) ≡ false
    go none h = cc
    go (some ps) h = subst (λ s. (length s == 0) ≡ false) (some-injective h) (ground arith)

is_sequence-ok : (n : ℕ) → n + 1 ≤ max_safe_integer → is_sequence (n + 1) (nat (n + 1)) ≡ true
is_sequence-ok n small = ground arith

record_of-normal :
    (event : Value) (head : Option Text) (digest : Text) (n : ℕ)
    → normal
        (record_of event (digest_value head) (text digest) (nat n) (text runtime_audit_version))
      ≡ record_of
          (normal event)
          (digest_value head)
          (text digest)
          (nat n)
          (text runtime_audit_version)
unfolding normal
record_of-normal event none digest n = refl
record_of-normal event (some d) digest n = refl

body_of-normal :
    (event : Value) (head : Option Text) (n : ℕ)
    → normal (body_of event (digest_value head) (nat n) (text runtime_audit_version))
      ≡ body_of (normal event) (digest_value head) (nat n) (text runtime_audit_version)
unfolding normal
body_of-normal event none n = refl
body_of-normal event (some d) n = refl

verify-record_of :
    (sha256 : Text → Text) (event : Value) (head : Option Text) (digest : Text) (n : ℕ)
    → verify_parsed_runtime_audit_record sha256
        (record_of event (digest_value head) (text digest) (nat n) (text runtime_audit_version))
        n
        head
      ≡ verify_fields sha256 n head event
          (digest_value head)
          (text digest)
          (nat n)
          (text runtime_audit_version)
unfolding verify_parsed_runtime_audit_record exact_audit_keys text_eq
verify-record_of sha256 event head digest n = refl

record-filled :
    (event previous digest sequence version : Value) (s : Text)
    → canonical_audit_json 0 (record_of event previous digest sequence version) ≡ some s
    → (length s == 0) ≡ false
record-filled event previous digest sequence version s e = object-filled _ s e

-- What `prepare` has checked when it returns.
pub record IsReady (sha256 : Text → Text) (ledger : Ledger) (event : Value) (p : Prepared)
    : Type 0 where
  accepted : assert_runtime_event_for_audit event ≡ true
  body : Text
  body_text :
      canonical_audit_json 0 (
        body_of event
          (digest_value ledger.head_digest)
          (nat (ledger.record_count + 1))
          (text runtime_audit_version))
      ≡ some body
  digest_is : p.digest ≡ sha256 body
  value_is :
      p.value
      ≡ record_of event
          (digest_value ledger.head_digest)
          (text (sha256 body))
          (nat (ledger.record_count + 1))
          (text runtime_audit_version)
  line_is :
      canonical_audit_json 0 (
        record_of event
          (digest_value ledger.head_digest)
          (text (sha256 body))
          (nat (ledger.record_count + 1))
          (text runtime_audit_version))
      ≡ some p.line
  fits : ltb ledger.max_record_bytes (byte_length p.line + 1) ≡ false

returned-injective : {A : Type 0} {a b : A} → returned a ≡ returned b → a ≡ b
returned-injective e = cc

thrown-ne-returned :
    {A : Type 0} {e : Thrown} {a : A} → ◌≡◌ {A = Returns A} (thrown e) (returned a) → ⊥
thrown-ne-returned h = cc

module _ (sha256 : Text → Text) where
  pub prepare-IsReady :
      (ledger : Ledger) (event : Value) (p : Prepared)
      → prepare sha256 ledger event ≡ returned p
      → IsReady sha256 ledger event p
  unfolding prepare with_digest sized
  prepare-IsReady ledger event p e =
      let body_value =
        body_of event (digest_value ledger.head_digest) (nat (ledger.record_count + 1))
          (text runtime_audit_version) in
      elim (Bool-cases (assert_runtime_event_for_audit event)) [
        | inr refused ↦ absurd (thrown-ne-returned (rw (refused, prepare) at e))
        | inl accepted ↦ elim (Option-cases (canonical_audit_json 0 body_value)) [
          | inl unfit ↦ absurd (thrown-ne-returned (rw (accepted, unfit, prepare) at e))
          | inr (body, body_text) ↦
              let value =
                record_of event (digest_value ledger.head_digest) (text (sha256 body))
                  (nat (ledger.record_count + 1)) (text runtime_audit_version) in
              let e' = rw (accepted, body_text, prepare) at e in
              elim (Option-cases (canonical_audit_json 0 value)) [
                | inl unfit ↦ absurd (thrown-ne-returned (rw (unfit, sized) at e'))
                | inr (line, line_text) ↦
                    elim (Bool-cases (ltb ledger.max_record_bytes (byte_length line + 1))) [
                      | inl long ↦ absurd (thrown-ne-returned (rw (line_text, long, sized) at e'))
                      | inr fits ↦
                          let same = returned-injective (rw (line_text, fits, sized) at e') in
                          subst (IsReady sha256 ledger event) same (record {
                            accepted = accepted;
                            body = body;
                            body_text = body_text;
                            digest_is = refl;
                            value_is = refl;
                            line_is = line_text;
                            fits = fits;
                          })
                    ]
              ]
        ]
      ]

  -- The fields of a record of the right place in the chain are verified.
  verify_fields-ok :
      (event : Value) (head : Option Text) (n : ℕ) (body : Text)
      → runtime_audit_sha256_hex (sha256 body) ≡ true
      → n + 1 ≤ max_safe_integer
      → assert_runtime_event_for_audit event ≡ true
      → canonical_audit_json 0
          (body_of event (digest_value head) (nat (n + 1)) (text runtime_audit_version))
        ≡ some body
      → verify_fields sha256
          (n + 1)
          head
          event
          (digest_value head)
          (text (sha256 body))
          (nat (n + 1))
          (text runtime_audit_version)
        ≡ some (sha256 body)
  unfolding verify_fields text_eq
  verify_fields-ok event head n body hex small accepted text_is =
      rw (is_sequence-ok n small, is_previous-digest head, accepted, text_is)
        (same_digest-ok body hex)
    where
      same_digest-ok :
          (body : Text)
          → runtime_audit_sha256_hex (sha256 body) ≡ true
          → same_digest sha256 (some body) (text (sha256 body)) ≡ some (sha256 body)
      same_digest-ok body hex = unfold same_digest in rw (hex, text_eq_refl (sha256 body)) refl

module _ (sha256 : Text → Text) (parse : Text → Option Value)
    (hex : (s : Text) → runtime_audit_sha256_hex (sha256 s) ≡ true) where
  parsed_canonical-ok :
      (max : ℕ) (value : Value) (line : Text)
      → canonical_audit_json 0 value ≡ some line
      → parsed_canonical sha256 parse max line (some value) ≡ some value
  unfolding parsed_canonical
  parsed_canonical-ok max value line e = rw (parsed_canonical, e, text_eq_refl line) refl

  pub check-IsReady :
      (ledger : Ledger) (event : Value) (p : Prepared)
      → ledger.record_count < max_safe_integer
      → IsReady sha256 ledger event p
      → IsReadBack parse p.value
      → check_line sha256 parse ledger.max_record_bytes
          (ledger.record_count + 1)
          ledger.head_digest
          p.line
        ≡ some p.digest
  unfolding check_line
  check-IsReady ledger event p small h readable =
      let value =
        record_of event (digest_value ledger.head_digest) (text (sha256 h.body))
          (nat (ledger.record_count + 1)) (text runtime_audit_version) in
      let body =
        body_of event (digest_value ledger.head_digest) (nat (ledger.record_count + 1))
          (text runtime_audit_version) in
      let read =
        read_back-text parse value p.line (subst (IsReadBack parse) h.value_is readable) h.line_is
        ∙ ap some
            (record_of-normal event ledger.head_digest (sha256 h.body) (ledger.record_count + 1)) in
      let line_again =
        ap (canonical_audit_json 0) (
          sym (record_of-normal event ledger.head_digest (sha256 h.body) (ledger.record_count + 1)))
        ∙ canonical-normal_value 0 value
        ∙ h.line_is in
      let body_again =
        ap (canonical_audit_json 0)
          (sym (body_of-normal event ledger.head_digest (ledger.record_count + 1)))
        ∙ canonical-normal_value 0 body
        ∙ h.body_text in
      rw
        (
          record-filled event (digest_value ledger.head_digest) (text (sha256 h.body))
              (nat (ledger.record_count + 1)) (text runtime_audit_version) p.line h.line_is,
          h.fits,
          read,
          parsed_canonical-ok ledger.max_record_bytes _ p.line line_again,
          verify-record_of,
          h.digest_is,
        )
        (verify_fields-ok sha256 (normal event) ledger.head_digest ledger.record_count h.body
          (hex h.body) (omega arith) (assert-normal event ∙ h.accepted) body_again)
