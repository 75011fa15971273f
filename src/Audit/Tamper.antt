-- ===== src/Audit/Tamper.antt =====
-- The chain of digests: two files that are verified with the same head differ only if SHA-256 has a
-- collision.
use mathlib.Core.List.{append-nil}
use agentlily_runtime.Common.{
  ℕ, ◌+◌, ◌≡◌, ◌≢◌, ◌∙◌, refl, sym, ap, subst, ◌⊎◌, inl, inr, true, false, List, [], ◌∷◌, ◌++◌,
  Option, none, some, Text, text_eq, text_eq_refl, text_eq_iff, arith, Bool-cases, Option-cases,
}
use agentlily_runtime.Audit.CanonicalJson.{Value, text, nat, canonical_audit_json}
use agentlily_runtime.Audit.Schema.{runtime_audit_version, digest_value, body_of, record_of}
use agentlily_runtime.Audit.Normal.{normal, IsReadBack, read_back-text, canonical-normal_value}
use agentlily_runtime.Audit.Verifier.{
  RuntimeAuditVerificationResult, verified, refused, check_line, at_end, verify_lines,
}
use agentlily_runtime.Audit.Accepted.{
  IsRecord, check_line-IsRecord, some-injective, without_digest, without_digest-record_of,
  BodyReadBack, BodiesReadBack,
}

texts_differ : (s t : Text) → text_eq s t ≡ false → s ≢ t
texts_differ s t h e = true-ne-false (sym (text_eq_refl t) ∙ sym (ap (λ s. text_eq s t) e) ∙ h)
  where
    true-ne-false : true ≡ false → ⊥
    true-ne-false h = cc

-- The parts of a body are those of its JSON text.
same_body :
    (event event' : Value) (h h' : Option Text) (n : ℕ)
    → normal (body_of event (digest_value h) (nat n) (text runtime_audit_version))
      ≡ normal (body_of event' (digest_value h') (nat n) (text runtime_audit_version))
    → (normal event ≡ normal event') × (h ≡ h')
unfolding normal
same_body event event' none none n e = (cc, refl)
same_body event event' none (some d) n e = cc
same_body event event' (some d) none n e = cc
same_body event event' (some d) (some d') n e = (cc, cc)

same_record :
    (event event' : Value) (h h' : Option Text) (d : Text) (n : ℕ)
    → normal event ≡ normal event'
    → h ≡ h'
    → normal (record_of event (digest_value h) (text d) (nat n) (text runtime_audit_version))
      ≡ normal (record_of event' (digest_value h') (text d) (nat n) (text runtime_audit_version))
unfolding normal
same_record event event' h h' d n e heads = rw (e, heads) refl

-- Two texts with one digest.
abbrev pub Collision : (Text → Text) → Type 0
Collision sha256 = (s : Text) × (t : Text) × (s ≢ t) × (sha256 s ≡ sha256 t)

module _ (sha256 : Text → Text) (parse : Text → Option Value) (max : ℕ) where
  body_parsed :
      (line : Text) (v : Value) (n : ℕ) (h : Option Text) (d : Text) (r : IsRecord sha256 n h v d)
      → parse line ≡ some v
      → BodyReadBack parse (parse line)
      → parse r.body
        ≡ some (normal (body_of r.event (digest_value h) (nat n) (text runtime_audit_version)))
  body_parsed line v n h d r parsed back =
      let whole : IsReadBack parse (without_digest v) = subst (BodyReadBack parse) parsed back in
      let body =
        ap without_digest r.is_record
        ∙ without_digest-record_of r.event (digest_value h) (text d) (nat n)
            (text runtime_audit_version) in
      read_back-text parse _ r.body (subst (IsReadBack parse) body whole) r.body_text

  same_digest_same_line :
      (n : ℕ) (h h' : Option Text) (line line' d : Text)
      → check_line sha256 parse max n h line ≡ some d
      → check_line sha256 parse max n h' line' ≡ some d
      → BodyReadBack parse (parse line)
      → BodyReadBack parse (parse line')
      → ((line ≡ line') × (h ≡ h')) ⊎ Collision sha256
  same_digest_same_line n h h' line line' d e e' back back' =
      let (v, parsed, v_text, r) = check_line-IsRecord sha256 parse max n h line d e in
      let (v', parsed', v_text', r') = check_line-IsRecord sha256 parse max n h' line' d e' in
      elim (Bool-cases (text_eq r.body r'.body)) [
        | inr differ ↦
            inr
              (r.body, r'.body, texts_differ r.body r'.body differ, r.digest_is ∙ sym r'.digest_is)
        | inl same ↦
            let bodies : r.body ≡ r'.body = (text_eq_iff r.body r'.body).0 same in
            let read =
              sym (body_parsed line v n h d r parsed back)
              ∙ ap parse bodies
              ∙ body_parsed line' v' n h' d r' parsed' back' in
            let (events, heads) = same_body r.event r'.event h h' n (some-injective read) in
            let same_text =
              sym v_text
              ∙ ap (canonical_audit_json 0) r.is_record
              ∙ sym (canonical-normal_value 0 _)
              ∙ ap (canonical_audit_json 0) (same_record r.event r'.event h h' d n events heads)
              ∙ canonical-normal_value 0 _
              ∙ sym (ap (canonical_audit_json 0) r'.is_record)
              ∙ v_text' in
            inl (some-injective same_text, heads)
      ]

  -- A chain of lines, the last one first: its length and its head.
  IsChain : ℕ → Option Text → List Text → Type 0
  IsChain n head [] = (n ≡ 0) × (head ≡ none)
  IsChain n head (line ∷ lines) =
      (m : ℕ) × (before : Option Text) × (d : Text) × (n ≡ m + 1)
      × (head ≡ some d)
      × (check_line sha256 parse max (m + 1) before line ≡ some d)
      × BodyReadBack parse (parse line)
      × IsChain m before lines

  same_chain :
      (n : ℕ) (head : Option Text) (lines lines' : List Text)
      → IsChain n head lines
      → IsChain n head lines'
      → (lines ≡ lines') ⊎ Collision sha256
  unfolding IsChain
  same_chain n head [] [] c c' = inl refl
  same_chain n head [] (l ∷ ls) (empty, _) (m, before, d, count, _, _, _, _) = absurd (omega arith)
  same_chain n head (l ∷ ls) [] (m, before, d, count, _, _, _, _) (empty, _) = absurd (omega arith)
  same_chain n head (l ∷ ls) (l' ∷ ls') (m, before, d, count, is_head, good, back, rest)
        (m', before', d', count', is_head', good', back', rest') =
      let counts : m' ≡ m = omega arith in
      let digests : d' ≡ d = some-injective (sym is_head' ∙ is_head) in
      let good'' =
        subst (λ k. check_line sha256 parse max (k + 1) before' l' ≡ some d') counts good'
        ∙ ap some digests in
      elim (same_digest_same_line (m + 1) before before' l l' d good good'' back back') [
        | inr collision ↦ inr collision
        | inl (lines_eq, before_eq) ↦
            let rest'' =
              subst (λ h. IsChain m h ls') (sym before_eq)
                (subst (λ k. IsChain k before' ls') counts rest') in
            elim (same_chain m before ls ls' rest rest'') [
              | inl rest_eq ↦ inl (λ i. lines_eq i ∷ rest_eq i)
              | inr collision ↦ inr collision
            ]
      ]

  rev_onto : List Text → List Text → List Text
  rev_onto [] done = done
  rev_onto (l ∷ ls) done = rev_onto ls (l ∷ done)

  rev_onto-back :
      (ls done rest : List Text) → rev_onto (rev_onto ls done) rest ≡ rev_onto done (ls ++ rest)
  unfolding rev_onto
  rev_onto-back [] done rest = refl
  rev_onto-back (l ∷ ls) done rest = rev_onto-back ls (l ∷ done) rest

  verify_lines-IsChain :
      (n m : ℕ) (head final : Option Text) (done lines : List Text)
      → IsChain n head done
      → BodiesReadBack parse lines
      → verify_lines sha256 parse max n head lines [] ≡ verified m final
      → IsChain m final (rev_onto lines done)
  unfolding verify_lines at_end rev_onto IsChain
  verify_lines-IsChain n m head final done [] c back e =
      let count = ap (λ (r : RuntimeAuditVerificationResult). r.record_count) e in
      let heads = ap (λ (r : RuntimeAuditVerificationResult). r.head_digest) e in
      subst (λ h. IsChain m h done) heads (subst (λ k. IsChain k head done) count c)
  verify_lines-IsChain n m head final done (l ∷ lines) c back e =
      elim (Option-cases (check_line sha256 parse max (n + 1) head l)) [
        | inl bad ↦ absurd (refused-ne-verified _ _ _ _ _ (rw (bad, verify_lines) at e))
        | inr (d, good) ↦
            verify_lines-IsChain (n + 1) m (some d) final (l ∷ done) lines
              (n, head, d, refl, refl, good, back.0, c) back.1 (rw (good, verify_lines) at e)
      ]
    where
      refused-ne-verified :
          (a b : ℕ) (h k : Option Text) (i : Option ℕ) → refused a h i ≡ verified b k → ⊥
      refused-ne-verified a b h k i same = cc

  -- Two ledgers of complete lines that are verified with the same count and the same head digest
  -- have the same lines, or else there are two texts that SHA-256 gives one digest.
  -- `JSON.parse` reads the bodies of their records back.
  pub same_head_same_lines :
      (n : ℕ) (head : Option Text) (lines lines' : List Text)
      → BodiesReadBack parse lines
      → BodiesReadBack parse lines'
      → verify_lines sha256 parse max 0 none lines [] ≡ verified n head
      → verify_lines sha256 parse max 0 none lines' [] ≡ verified n head
      → (lines ≡ lines') ⊎ Collision sha256
  unfolding IsChain rev_onto
  same_head_same_lines n head lines lines' back back' e e' =
      elim (same_chain n head (rev_onto lines []) (rev_onto lines' [])
        (verify_lines-IsChain 0 n none head [] lines (refl, refl) back e)
        (verify_lines-IsChain 0 n none head [] lines' (refl, refl) back' e')) [
          | inl same ↦ inl (
              sym (append-nil lines)
              ∙ sym (rev_onto-back lines [] [])
              ∙ ap (λ ls. rev_onto ls []) same
              ∙ rev_onto-back lines' [] []
              ∙ append-nil lines')
          | inr collision ↦ inr collision
        ]
