-- ===== src/Audit/Accepted.antt =====
-- What a line is that the verifier accepts: the canonical text of a record of its place in the chain.
use agentlily_runtime.Common.{
  ℕ, ◌+◌, ◌≡◌, ◌∙◌, refl, sym, ap, subst, inl, inr, Bool, true, false, ◌&&◌, List, [], ◌∷◌, Option,
  none, some, Text, lit, ltb, ◌==◌, length, text_eq, text_eq_iff, arith, Bool-cases, Option-cases,
  if◌then◌else◌,
}
use agentlily_runtime.Common.Encoding.{byte_length}
use agentlily_runtime.Audit.CanonicalJson.{
  Value, null, text, nat, object, Fields, end, field, ◌>>=◌, canonical_audit_json, exact_audit_keys,
  texts_eq,
}
use agentlily_runtime.Audit.Schema.{
  runtime_audit_version, runtime_audit_sha256_hex, assert_runtime_event_for_audit, digest_value,
  body_of, record_of, record_keys, is_sequence, is_previous, is_version, same_digest, verify_fields,
  verify_parsed_runtime_audit_record,
}
use agentlily_runtime.Audit.Normal.{IsReadBack}
use agentlily_runtime.Audit.Verifier.{parsed_canonical, check_line}

pub some-injective : {A : Type 0} {a b : A} → some a ≡ some b → a ≡ b
some-injective e = cc

pub none-ne-some : {A : Type 0} {a : A} → none ≡ some a → ⊥
none-ne-some e = cc

-- What a good record is made of.
pub record IsRecord (sha256 : Text → Text) (n : ℕ) (head : Option Text) (v : Value) (digest : Text)
    : Type 0 where
  pub event : Value
  pub body : Text
  pub is_record :
      v ≡ record_of event (digest_value head) (text digest) (nat n) (text runtime_audit_version)
  pub body_text :
      canonical_audit_json 0
        (body_of event (digest_value head) (nat n) (text runtime_audit_version))
      ≡ some body
  pub digest_is : sha256 body ≡ digest

is_previous-eq :
    (head : Option Text) (v : Value) → is_previous head v ≡ true → v ≡ digest_value head
is_previous-eq none null h = refl
is_previous-eq (some d) (text s) h = ap (λ s. text s) ((text_eq_iff s d).0 h)
is_previous-eq none _ h = cc
is_previous-eq (some d) _ h = cc

is_sequence-eq : (n : ℕ) (v : Value) → is_sequence n v ≡ true → v ≡ nat n
is_sequence-eq n (nat m) h = ap (λ k. nat k) (ground arith)
is_sequence-eq n _ h = cc

is_version-eq : (v : Value) → is_version v ≡ true → v ≡ text runtime_audit_version
is_version-eq (text s) h = ap (λ s. text s) ((text_eq_iff s runtime_audit_version).0 h)
is_version-eq _ h = cc

same_digest-eq :
    (sha256 : Text → Text) (body : Option Text) (v : Value) (digest : Text)
    → same_digest sha256 body v ≡ some digest
    → (b : Text) × (body ≡ some b) × (v ≡ text digest) × (sha256 b ≡ digest)
unfolding same_digest
same_digest-eq sha256 (some b) (text s) digest e =
    elim (Bool-cases (runtime_audit_sha256_hex s && text_eq (sha256 b) s)) [
      | inl same ↦
          let is_digest : s ≡ digest = some-injective (rw same at e) in
          (
            b,
            refl,
            ap (λ s. text s) is_digest,
            (text_eq_iff (sha256 b) s).0 (ground arith) ∙ is_digest,
          )
      | inr other ↦ absurd (none-ne-some (rw other at e))
    ]
same_digest-eq sha256 (some b) _ digest e = cc
same_digest-eq sha256 none _ digest e = cc

texts_eq_sound : (s t : List Text) → texts_eq s t ≡ true → s ≡ t
texts_eq_sound [] [] h = refl
texts_eq_sound (a ∷ s) (b ∷ t) h = ground (arith, text_eq_iff a b, texts_eq_sound s t)
texts_eq_sound [] (b ∷ t) h = cc
texts_eq_sound (a ∷ s) [] h = cc

all_true :
    (a b c d : Bool) → (a && b && c && d) ≡ true → (a ≡ true) × (b ≡ true) × (c ≡ true) × (d ≡ true)
all_true true true true true h = (refl, refl, refl, refl)
all_true true true true false h = cc
all_true true true false d h = cc
all_true true false c d h = cc
all_true false b c d h = cc

verify_fields-IsRecord :
    (sha256 : Text → Text) (n : ℕ) (head : Option Text)
    (event previous digest sequence version : Value) (d : Text)
    → verify_fields sha256 n head event previous digest sequence version ≡ some d
    → IsRecord sha256 n head (record_of event previous digest sequence version) d
unfolding verify_fields
verify_fields-IsRecord sha256 n head event previous digest sequence version d e =
    elim (Bool-cases (
      is_version version
      && is_sequence n sequence
      && is_previous head previous
      && assert_runtime_event_for_audit event)) [
        | inr bad ↦ absurd (none-ne-some (rw (bad, verify_fields) at e))
        | inl good ↦
            let (is_v, is_s, is_p, _) =
              all_true (is_version version) (is_sequence n sequence) (is_previous head previous)
                (assert_runtime_event_for_audit event) good in
            let v = is_version-eq version is_v in
            let s = is_sequence-eq n sequence is_s in
            let p = is_previous-eq head previous is_p in
            let (b, body_text, is_digest, sha) =
              same_digest-eq sha256
                (canonical_audit_json 0 (body_of event previous sequence version)) digest d
                (rw (good, verify_fields) at e) in
            record {
              event = event;
              body = b;
              is_record = λ i. record_of event (p i) (is_digest i) (s i) (v i);
              body_text =
                  sym (λ i. canonical_audit_json 0 (body_of event (p i) (s i) (v i))) ∙ body_text;
              digest_is = sha;
            }
      ]

record_of-keys :
    (k1 k2 k3 k4 k5 : Text) (event previous digest sequence version : Value)
    → exact_audit_keys
        (field k1 event
          (field k2 previous (field k3 digest (field k4 sequence (field k5 version end)))))
        record_keys
      ≡ true
    → object (
        field k1 event
          (field k2 previous (field k3 digest (field k4 sequence (field k5 version end)))))
      ≡ record_of event previous digest sequence version
unfolding exact_audit_keys
record_of-keys k1 k2 k3 k4 k5 event previous digest sequence version h =
    let same = texts_eq_sound (k1 ∷ k2 ∷ k3 ∷ k4 ∷ k5 ∷ []) record_keys h in cc

verify-IsRecord :
    (sha256 : Text → Text) (n : ℕ) (head : Option Text) (v : Value) (d : Text)
    → verify_parsed_runtime_audit_record sha256 v n head ≡ some d
    → IsRecord sha256 n head v d
unfolding verify_parsed_runtime_audit_record
verify-IsRecord sha256 n head
      (object (
        field k1 event
          (field k2 previous (field k3 digest (field k4 sequence (field k5 version end))))))
      d e =
    elim (Bool-cases (
      exact_audit_keys
        (field k1 event
          (field k2 previous (field k3 digest (field k4 sequence (field k5 version end)))))
        record_keys)) [
          | inl exact ↦
              subst (λ v. IsRecord sha256 n head v d)
                (sym (record_of-keys k1 k2 k3 k4 k5 event previous digest sequence version exact))
                (verify_fields-IsRecord sha256 n head event previous digest sequence version d
                  (rw (exact, verify_parsed_runtime_audit_record) at e))
          | inr odd ↦ absurd (none-ne-some (rw (odd, verify_parsed_runtime_audit_record) at e))
        ]
verify-IsRecord sha256 n head _ d e = cc

>>=-eq-some :
    {A B : Type 0} (o : Option A) (f : A → Option B) (b : B)
    → (o >>= f) ≡ some b
    → (a : A) × (o ≡ some a) × (f a ≡ some b)
>>=-eq-some (some a) f b e = (a, refl, e)
>>=-eq-some none f b e = cc

module _ (sha256 : Text → Text) (parse : Text → Option Value) (max : ℕ) where
  parsed_canonical-eq :
      (line : Text) (o : Option Value) (v : Value)
      → parsed_canonical sha256 parse max line o ≡ some v
      → canonical_audit_json 0 v ≡ some line
  unfolding parsed_canonical
  parsed_canonical-eq line none v e = cc
  parsed_canonical-eq line (some u) v e = elim (Option-cases (canonical_audit_json 0 u)) [
    | inl unfit ↦ absurd (none-ne-some (rw (unfit, parsed_canonical) at e))
    | inr (s, known) ↦ elim (Bool-cases (text_eq s line)) [
      | inr other ↦ absurd (none-ne-some (rw (known, other, parsed_canonical) at e))
      | inl same ↦
          let u_is : u ≡ v = some-injective (rw (known, same, parsed_canonical) at e) in
          sym (ap (canonical_audit_json 0) u_is) ∙ known ∙ ap some ((text_eq_iff s line).0 same)
    ]
  ]

  parsed_canonical-parsed :
      (line : Text) (o : Option Value) (v : Value)
      → parsed_canonical sha256 parse max line o ≡ some v
      → o ≡ some v
  unfolding parsed_canonical
  parsed_canonical-parsed line none v e = cc
  parsed_canonical-parsed line (some u) v e = elim (Option-cases (canonical_audit_json 0 u)) [
    | inl unfit ↦ absurd (none-ne-some (rw (unfit, parsed_canonical) at e))
    | inr (s, known) ↦ elim (Bool-cases (text_eq s line)) [
      | inr other ↦ absurd (none-ne-some (rw (known, other, parsed_canonical) at e))
      | inl same ↦ rw (known, same, parsed_canonical) at e
    ]
  ]

  pub check_line-IsRecord :
      (n : ℕ) (head : Option Text) (line d : Text)
      → check_line sha256 parse max n head line ≡ some d
      → (v : Value) × (parse line ≡ some v)
        × (canonical_audit_json 0 v ≡ some line)
        × IsRecord sha256 n head v d
  unfolding check_line
  check_line-IsRecord n head line d e = elim (Bool-cases (length line == 0)) [
    | inl empty ↦ absurd (none-ne-some (rw (empty, check_line) at e))
    | inr filled ↦ elim (Bool-cases (ltb max (byte_length line + 1))) [
      | inl long ↦ absurd (none-ne-some (rw (filled, long, check_line) at e))
      | inr fits ↦
          let (v, parsed, checked) =
            >>=-eq-some (parsed_canonical sha256 parse max line (parse line))
              (λ v. verify_parsed_runtime_audit_record sha256 v n head) d
              (rw (filled, fits, check_line) at e) in
          (
            v,
            parsed_canonical-parsed line (parse line) v parsed,
            parsed_canonical-eq line (parse line) v parsed,
            verify-IsRecord sha256 n head v d checked,
          )
    ]
  ]

drop_field : Text → Fields → Fields
drop_field key end = end
drop_field key (field k v fields) =
    if text_eq k key then drop_field key fields else field k v (drop_field key fields)

-- The body of a record: all but its digest.
unfoldable pub without_digest : Value → Value
unfolding drop_field
without_digest (object fields) = object (drop_field (lit "recordDigest") fields)
without_digest v = v

pub without_digest-record_of :
    (event previous digest sequence version : Value)
    → without_digest (record_of event previous digest sequence version)
      ≡ body_of event previous sequence version
unfolding without_digest text_eq
without_digest-record_of event previous digest sequence version = refl

-- `JSON.parse` reads the body of a parsed record back.
abbrev pub BodyReadBack : (Text → Option Value) → Option Value → Type 0
BodyReadBack parse none = Unit
BodyReadBack parse (some v) = IsReadBack parse (without_digest v)

abbrev pub BodiesReadBack : (Text → Option Value) → List Text → Type 0
BodiesReadBack parse [] = Unit
BodiesReadBack parse (line ∷ lines) = BodyReadBack parse (parse line) × BodiesReadBack parse lines
