-- ===== src/Tasks/Reconciliation/Laws.antt =====
-- What is taken for a proof of an authority.
use agentlily_runtime.Common.{
  Text, ℕ, ◌≤◌, ◌⊎◌, inl, inr, ◌&&◌, ◌==◌, [], ◌∷◌, leb, length, all, ◌↔◌, ◌≡◌, refl, ap, ◌∙◌,
  subst, Bool, true, false, not, ◌||◌, Option, none, some, arith, if◌then◌else◌, get_or, is_blank,
  trim,
}
use agentlily_runtime.Errors.{Result, ok, err, ok-injective}
use agentlily_runtime.Tasks.Reconciliation.{
  RawDecision, ReconciliationDecision, is_true, safe_audit_reference, sha256_hex, parse_texts,
  parse_reconciliation_decision, required, decision_of,
}

-- Every character is printable ASCII.
abbrev pub AllPrintable : Text → Type 0
AllPrintable [] = Unit
AllPrintable (c ∷ s) = ((32 ≤ c) × (c ≤ 126)) × AllPrintable s

-- Every character is a lower-case hexadecimal digit.
abbrev pub AllHex : Text → Type 0
AllHex [] = Unit
AllHex (c ∷ s) = (((b'a' ≤ c) × (c ≤ b'f')) ⊎ ((b'0' ≤ c) × (c ≤ b'9'))) × AllHex s

-- A reference of 1 to 512 printable characters that is not blank, and a digest of 64 hex digits.
pub record Worded (reference evidence : Option Text) (d : ReconciliationDecision) : Type 0 where
  pub said : Text
  pub reference_said : reference ≡ some said
  pub reference_length : (1 ≤ length said) × (length said ≤ 512)
  pub reference_printable : AllPrintable said
  pub reference_not_blank : is_blank said ≡ false
  pub reference_kept : trim said ≡ d.authority_reference
  pub evidence_kept : evidence ≡ some d.evidence_sha256
  pub evidence_length : length d.evidence_sha256 ≡ 64
  pub evidence_hex : AllHex d.evidence_sha256

abbrev printable : ℕ → Bool
printable c = leb 32 c && leb c 126

abbrev hex : ℕ → Bool
hex c = (leb b'a' c && leb c b'f') || (leb b'0' c && leb c b'9')

all-AllPrintable : (s : Text) → all printable s ≡ true → AllPrintable s
all-AllPrintable [] h = tt
all-AllPrintable (c ∷ s) h = ((ground arith, ground arith), all-AllPrintable s (ground arith))

AllPrintable-all : (s : Text) → AllPrintable s → all printable s ≡ true
AllPrintable-all [] h = refl
AllPrintable-all (c ∷ s) ((low, high), h) = ground (arith, AllPrintable-all s h)

all-AllHex : (s : Text) → all hex s ≡ true → AllHex s
all-AllHex [] h = tt
all-AllHex (c ∷ s) h = (ground arith, all-AllHex s (ground arith))

AllHex-all : (s : Text) → AllHex s → all hex s ≡ true
AllHex-all [] h = refl
AllHex-all (c ∷ s) (inl (low, high), h) = ground (arith, AllHex-all s h)
AllHex-all (c ∷ s) (inr (low, high), h) = ground (arith, AllHex-all s h)

safe_audit_reference-parts :
    (s : Text)
    → safe_audit_reference s ≡ true
    → ((1 ≤ length s) × (length s ≤ 512)) × AllPrintable s
unfolding safe_audit_reference
safe_audit_reference-parts s h = ((ground arith, ground arith), all-AllPrintable s (ground arith))

sha256_hex-parts : (s : Text) → sha256_hex s ≡ true → (length s ≡ 64) × AllHex s
unfolding sha256_hex
sha256_hex-parts s h = (ground arith, all-AllHex s (ground arith))

-- A complete proof: both confirmations, and the two texts.
pub record Proven (raw : RawDecision) (d : ReconciliationDecision) : Type 0 where
  pub not_applied : raw.confirmed_not_applied ≡ some true
  pub quiescent : raw.confirmed_quiescent ≡ some true
  pub texts : Worded raw.authority_reference raw.evidence_sha256 d

parse_texts_of :
    (s v : Text) (d : ReconciliationDecision) (b1 b2 b3 : Bool)
    → safe_audit_reference s ≡ b1
    → is_blank s ≡ b2
    → sha256_hex v ≡ b3
    → (if not b1 || b2 || not b3
        then none
        else some (record { authority_reference = trim s; evidence_sha256 = v }))
      ≡ some d
    → Worded (some s) (some v) d
parse_texts_of s v d true false true e1 e2 e3 e =
    subst (Worded (some s) (some v)) (ap (λ o. get_or o d) e) (record {
      said = s;
      reference_said = refl;
      reference_length = (safe_audit_reference-parts s e1).0;
      reference_printable = (safe_audit_reference-parts s e1).1;
      reference_not_blank = e2;
      reference_kept = refl;
      evidence_kept = refl;
      evidence_length = (sha256_hex-parts v e3).0;
      evidence_hex = (sha256_hex-parts v e3).1;
    })
parse_texts_of s v d true false false e1 e2 e3 e = ground arith
parse_texts_of s v d true true b3 e1 e2 e3 e = ground arith
parse_texts_of s v d false b2 b3 e1 e2 e3 e = ground arith

parse_texts-Worded :
    (reference evidence : Option Text) (d : ReconciliationDecision)
    → parse_texts reference evidence ≡ some d
    → Worded reference evidence d
unfolding parse_texts
parse_texts-Worded (some s) (some v) d e = parse_texts_of s v d _ _ _ refl refl refl e
parse_texts-Worded none evidence d e = ground arith
parse_texts-Worded (some s) none d e = ground arith

confirmed : (o : Option Bool) → is_true o ≡ true → o ≡ some true
confirmed none e = ground arith
confirmed (some b) e = ap some e

is_true-Proven :
    (x : RawDecision) (d : ReconciliationDecision) (b1 b2 : Bool)
    → is_true x.confirmed_not_applied ≡ b1
    → is_true x.confirmed_quiescent ≡ b2
    → (if not b1 || not b2 then none else parse_texts x.authority_reference x.evidence_sha256)
      ≡ some d
    → Proven x d
is_true-Proven x d true true e1 e2 e = record {
  not_applied = confirmed x.confirmed_not_applied e1;
  quiescent = confirmed x.confirmed_quiescent e2;
  texts = parse_texts-Worded x.authority_reference x.evidence_sha256 d e;
}
is_true-Proven x d true false e1 e2 e = ground arith
is_true-Proven x d false b2 e1 e2 e = ground arith

parse-Proven :
    (x : RawDecision) (d : ReconciliationDecision)
    → parse_reconciliation_decision (some x) ≡ some d
    → Proven x d
unfolding parse_reconciliation_decision
parse-Proven x d e = is_true-Proven x d _ _ refl refl e

Worded-parse_texts :
    (reference evidence : Option Text) (d : ReconciliationDecision)
    → Worded reference evidence d
    → parse_texts reference evidence ≡ some d
unfolding parse_texts safe_audit_reference sha256_hex
Worded-parse_texts reference evidence d w =
    let safe : (leb 1 (length w.said) && leb (length w.said) 512 && all printable w.said) ≡ true =
      ground (
        arith,
        w.reference_length.0,
        w.reference_length.1,
        AllPrintable-all w.said w.reference_printable,
      ) in
    let hexed : (length d.evidence_sha256 == 64 && all hex d.evidence_sha256) ≡ true =
      ground (arith, w.evidence_length, AllHex-all d.evidence_sha256 w.evidence_hex) in
    rw (w.reference_said, w.evidence_kept, parse_texts, safe, hexed, w.reference_not_blank)
      (ap (λ t. some (record { authority_reference = t; evidence_sha256 = d.evidence_sha256 }))
        w.reference_kept)

-- A decision is taken from an authority's object exactly if both confirmations are true, the
-- reference has 1 to 512 printable characters and is not blank, and the digest has 64 lower-case
-- hexadecimal digits; it has the reference trimmed and the digest.
pub parse_reconciliation_decision_iff :
    (x : RawDecision) (d : ReconciliationDecision)
    → (parse_reconciliation_decision (some x) ≡ some d) ↔ Proven x d
unfolding parse_reconciliation_decision
parse_reconciliation_decision_iff x d = (
  parse-Proven x d,
  λ p.
      rw (p.not_applied, p.quiescent)
        (Worded-parse_texts x.authority_reference x.evidence_sha256 d p.texts),
)

required_of :
    (x : RawDecision) (d : ReconciliationDecision) (y : Option ReconciliationDecision)
    → parse_reconciliation_decision (some x) ≡ y
    → required y ≡ ok d
    → Proven x d
unfolding required
required_of x d none q e = ground arith
required_of x d (some d') q e = parse-Proven x d (q ∙ ap some (ok-injective e))

pub decision_of-Proven :
    (a : Result (Option RawDecision)) (d : ReconciliationDecision)
    → decision_of a ≡ ok d
    → (x : RawDecision) × (a ≡ ok (some x)) × Proven x d
unfolding decision_of parse_reconciliation_decision required
decision_of-Proven (ok (some x)) d e = (x, refl, required_of x d _ refl e)
decision_of-Proven (ok none) d e = ground arith
decision_of-Proven (err x) d e = ground arith
