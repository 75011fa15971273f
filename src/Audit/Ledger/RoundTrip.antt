-- ===== src/Audit/Ledger/RoundTrip.antt =====
-- What a healthy ledger has written is verified, with its count and its head.
use agentlily_runtime.Common.{
  ℕ, ◌+◌, ◌≤◌, ◌<◌, ◌≡◌, ◌∙◌, refl, sym, ap, ◌⊎◌, inl, inr, true, false, not, ◌||◌, List, [], ◌∷◌,
  ◌++◌, Option, none, some, Text, length, arith, Bool-cases, Option-cases,
}
use agentlily_runtime.Audit.CanonicalJson.{Value}
use agentlily_runtime.Audit.Schema.{runtime_audit_sha256_hex, max_safe_integer}
use agentlily_runtime.Audit.Verifier.{
  AuditFile, RuntimeAuditVerificationResult, verified, refused, check_line, at_end, verify_lines,
}
use agentlily_runtime.Audit.Ledger.{
  Ledger, Prepared, WriteOutcome, synced, fsync_failed, short, failed, Returns, returned, thrown,
  Thrown, append_line, append_part, mark_unhealthy, prepare, write, append, append_all,
}
use agentlily_runtime.Audit.Normal.{IsReadBack}
use agentlily_runtime.Audit.Ledger.Ready.{prepare-IsReady, check-IsReady}

module _ (sha256 : Text → Text) where
  append_all-is_healthy :
      (events : List (Value × WriteOutcome)) (ledger : Ledger) (file : AuditFile)
      → ledger.is_healthy ≡ false
      → append_all sha256 events ledger file ≡ (ledger, file)
  unfolding append_all append
  append_all-is_healthy [] ledger file sick = refl
  append_all-is_healthy ((event, outcome) ∷ events) ledger file sick =
      simp sick (append_all-is_healthy events ledger file sick)

  write-thrown :
      (outcome : WriteOutcome) (ledger l' : Ledger) (file f' : AuditFile) (r : Returns Prepared)
      (e : Thrown)
      → write sha256 ledger file r outcome ≡ (thrown e, l', f')
      → l'.is_healthy ≡ false
  unfolding write mark_unhealthy
  write-thrown synced ledger l' file f' (returned p) e h = cc
  write-thrown outcome ledger l' file f' (thrown x) e h =
      ap (λ (w : Returns Value × Ledger × AuditFile). w.1.is_healthy) (sym h)
  write-thrown _ ledger l' file f' (returned p) e h =
      ap (λ (w : Returns Value × Ledger × AuditFile). w.1.is_healthy) (sym h)

  -- An append that throws on an open and healthy ledger, for whatever reason, is its last: every
  -- later append changes neither the ledger nor the file.
  pub failed_for_good :
      (event : Value) (outcome : WriteOutcome) (ledger l' : Ledger) (file f' : AuditFile)
      (e : Thrown) (events : List (Value × WriteOutcome))
      → ledger.is_healthy ≡ true
      → ledger.is_closed ≡ false
      → ledger.has_descriptor ≡ true
      → append sha256 event outcome ledger file ≡ (thrown e, l', f')
      → append_all sha256 events l' f' ≡ (l', f')
  unfolding append
  failed_for_good event outcome ledger l' file f' e events healthy opened descriptor h =
      append_all-is_healthy events l' f' (
        write-thrown outcome ledger l' file f' (prepare sha256 ledger event) e
          (simp (healthy, opened, descriptor) at h))

module _ (sha256 : Text → Text) (parse : Text → Option Value)
    (hex : (s : Text) → runtime_audit_sha256_hex (sha256 s) ≡ true) where
  -- A record that an append returned is read back.
  abbrev pub IsReadable : Returns Value → Type 0
  IsReadable (returned v) = IsReadBack parse v
  IsReadable (thrown e) = Unit

  -- So is every record that a history of appends returns.
  abbrev pub AreReadable : List (Value × WriteOutcome) → Ledger → AuditFile → Type 0
  AreReadable [] ledger file = Unit
  AreReadable ((event, outcome) ∷ events) ledger file =
      IsReadable (append sha256 event outcome ledger file).0
      × AreReadable events (append sha256 event outcome ledger file).1
          (append sha256 event outcome ledger file).2

  -- The file verifies, with the count and the head that the ledger keeps.
  pub record Synced (ledger : Ledger) (file : AuditFile) : Type 0 where
    pub no_tail : file.tail ≡ []
    pub verifies :
        verify_lines sha256 parse ledger.max_record_bytes 0 none file.lines []
        ≡ verified ledger.record_count ledger.head_digest

  verify_lines-append :
      (max index : ℕ) (head head' : Option Text) (lines : List Text) (n : ℕ) (line : Text)
      (digest : Text)
      → verify_lines sha256 parse max index head lines [] ≡ verified n head'
      → check_line sha256 parse max (n + 1) head' line ≡ some digest
      → verify_lines sha256 parse max index head (lines ++ line ∷ []) []
        ≡ verified (n + 1) (some digest)
  unfolding verify_lines at_end
  verify_lines-append max index head head' [] n line digest e c =
      let count = ap (λ (r : RuntimeAuditVerificationResult). r.record_count) e in
      let heads = ap (λ (r : RuntimeAuditVerificationResult). r.head_digest) e in
      let c' : check_line sha256 parse max (index + 1) head line ≡ some digest =
        rw (count, heads) c in
      rw (verify_lines, c') (ap (λ k. verified (k + 1) (some digest)) count)
  verify_lines-append max index head head' (l ∷ lines) n line digest e c =
      elim (Option-cases (check_line sha256 parse max (index + 1) head l)) [
        | inl bad ↦ absurd (refused-ne-verified (rw (bad, verify_lines) at e))
        | inr (d, good) ↦
            rw (verify_lines, good)
              (verify_lines-append max (index + 1) (some d) head' lines n line digest
                (rw (good, verify_lines) at e) c)
      ]
    where
      refused-ne-verified :
          {a b : ℕ} {h k : Option Text} {i : Option ℕ} → refused a h i ≡ verified b k → ⊥
      refused-ne-verified h = cc

  write-Synced :
      (event : Value) (outcome : WriteOutcome) (ledger : Ledger) (file : AuditFile)
      (r : Returns Prepared)
      → prepare sha256 ledger event ≡ r
      → ledger.record_count < max_safe_integer
      → Synced ledger file
      → IsReadable (write sha256 ledger file r outcome).0
      → ((write sha256 ledger file r outcome).1.is_healthy ≡ false)
        ⊎ (Synced (write sha256 ledger file r outcome).1 (write sha256 ledger file r outcome).2
            × ((write sha256 ledger file r outcome).1.record_count ≤ ledger.record_count + 1))
  unfolding write append_line append_part mark_unhealthy
  write-Synced event outcome ledger file (thrown e) ready small h readable = inl refl
  write-Synced event fsync_failed ledger file (returned p) ready small h readable = inl refl
  write-Synced event (short part) ledger file (returned p) ready small h readable = inl refl
  write-Synced event (failed part) ledger file (returned p) ready small h readable = inl refl
  write-Synced event synced ledger file (returned p) ready small h readable = inr (
    record {
      no_tail = refl;
      verifies = rw (h.no_tail) (
          verify_lines-append ledger.max_record_bytes 0 none ledger.head_digest file.lines
            ledger.record_count p.line p.digest h.verifies
            (check-IsReady sha256 parse hex ledger event p small
              (prepare-IsReady sha256 ledger event p ready) readable));
    },
    omega arith,
  )

  append-Synced :
      (event : Value) (outcome : WriteOutcome) (ledger : Ledger) (file : AuditFile)
      → ledger.record_count < max_safe_integer
      → Synced ledger file
      → IsReadable (append sha256 event outcome ledger file).0
      → ((append sha256 event outcome ledger file).1.is_healthy ≡ false)
        ⊎ (Synced
              (append sha256 event outcome ledger file).1
              (append sha256 event outcome ledger file).2
            × ((append sha256 event outcome ledger file).1.record_count ≤ ledger.record_count + 1))
  unfolding append
  append-Synced event outcome ledger file small h readable = elim (Bool-cases ledger.is_healthy) [
    | inr sick ↦ simp sick (inl refl)
    | inl healthy ↦ elim (Bool-cases (ledger.is_closed || not ledger.has_descriptor)) [
      | inl closed ↦ simp (healthy, closed) (inr (h, omega arith))
      | inr ready ↦
          simp (healthy, ready)
            (write-Synced event outcome ledger file (prepare sha256 ledger event) refl small h
              (simp (healthy, ready) at readable))
    ]
  ]

  -- As long as a ledger is healthy, whatever was appended and however the writes ended, its file is
  -- verified with exactly the count and the head digest that the ledger keeps. SHA-256 gives 64
  -- hexadecimal digits, `JSON.parse` reads the records returned back, and the sequence numbers stay safe.
  pub append_all-Synced :
      (events : List (Value × WriteOutcome)) (ledger : Ledger) (file : AuditFile)
      → ledger.record_count + length events ≤ max_safe_integer
      → Synced ledger file
      → AreReadable events ledger file
      → (append_all sha256 events ledger file).0.is_healthy ≡ true
      → Synced (append_all sha256 events ledger file).0 (append_all sha256 events ledger file).1
  unfolding append_all
  append_all-Synced [] ledger file small h readable healthy = h
  append_all-Synced ((event, outcome) ∷ events) ledger file small h readable healthy =
      elim (append-Synced event outcome ledger file (omega arith) h readable.0) [
        | inl sick ↦ absurd (
            healthy-ne-sick (
              sym healthy
              ∙ ap (λ (w : Ledger × AuditFile). w.0.is_healthy)
                  (append_all-is_healthy sha256 events _ _ sick)
              ∙ sick))
        | inr (h', more) ↦ append_all-Synced events _ _ (omega (arith, more)) h' readable.1 healthy
      ]
    where
      healthy-ne-sick : true ≡ false → ⊥
      healthy-ne-sick h = cc
