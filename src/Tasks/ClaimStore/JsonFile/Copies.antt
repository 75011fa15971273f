-- ===== src/Tasks/ClaimStore/JsonFile/Copies.antt =====
-- The claims that a file has, and the copies of a snapshot among them.
use agentlily_runtime.Common.{
  Text, ℕ, suc, ◌==◌, ◌&&◌, all, count, subst, text_eq_refl, Bool-cases, ◌≡◌, refl, Bool, true,
  false, inl, inr, Option, none, some, List, [], ◌∷◌, ◌++◌, arith, find, text_eq_iff, if◌then◌else◌,
  Option-cases,
}
use agentlily_runtime.Errors.{Result, ok, err, Error, ok-injective, ok_of_bind}
use agentlily_runtime.Tasks.ClaimStore.{TaskClaimRecord, TaskClaimSnapshot, same_claim}
use agentlily_runtime.Tasks.ClaimStore.JsonFile.{
  Element, record_of, invalid, Contents, missing, blank, not_json, not_array, is_task_claim_record,
  has_id, array, File, records, load_claims, elements, is_for, others, as_snapshot, splice,
}

-- The claims of a snapshot's identifier with its identity.
abbrev pub is_copy : TaskClaimSnapshot → TaskClaimRecord → Bool
is_copy r c = is_for r.task_id c && has_id c.claim_id r.claim_id

abbrev pub copies_by : Result (List TaskClaimRecord) → TaskClaimSnapshot → ℕ
copies_by (ok cs) r = count (is_copy r) cs
copies_by (err e) r = 0

unfoldable pub copies : File → TaskClaimSnapshot → ℕ
copies f r = copies_by (load_claims f.contents) r

-- Claims that the store reads back.
abbrev pub are_valid : List TaskClaimRecord → Bool
are_valid cs = all is_task_claim_record cs

pub load_claims-elements :
    (cs : List TaskClaimRecord) → are_valid cs ≡ true → load_claims (array (elements cs)) ≡ ok cs
unfolding load_claims records
load_claims-elements [] h = refl
load_claims-elements (c ∷ cs) h =
    let valid : is_task_claim_record c ≡ true = ground arith in
    rw (valid, load_claims-elements cs (ground arith)) refl

records-are_valid :
    (es : List Element) (cs : List TaskClaimRecord) → records es ≡ ok cs → are_valid cs ≡ true
unfolding records
records-are_valid [] cs e = subst (λ cs. are_valid cs ≡ true) (ok-injective e) refl
records-are_valid (record_of c ∷ es) cs e = elim (Bool-cases (is_task_claim_record c)) [
  | inr bad ↦ absurd (err-ne-ok (rw (bad, records) at e))
  | inl valid ↦
      let (rest, found, e') =
        ok_of_bind (records es) (λ rest. ok (c ∷ rest)) (rw (valid, records) at e) in
      subst (λ cs. are_valid cs ≡ true) (ok-injective e')
        (ground (arith, valid, records-are_valid es rest found))
]
  where
    err-ne-ok : {x : Error} → ◌≡◌ {A = Result (List TaskClaimRecord)} (err x) (ok cs) → ⊥
    err-ne-ok h = cc
records-are_valid (invalid ∷ es) cs e = cc

pub load_claims-are_valid :
    (contents : Contents) (cs : List TaskClaimRecord)
    → load_claims contents ≡ ok cs
    → are_valid cs ≡ true
unfolding load_claims
load_claims-are_valid missing cs e = subst (λ cs. are_valid cs ≡ true) (ok-injective e) refl
load_claims-are_valid blank cs e = subst (λ cs. are_valid cs ≡ true) (ok-injective e) refl
load_claims-are_valid not_json cs e = cc
load_claims-are_valid not_array cs e = cc
load_claims-are_valid (array es) cs e = records-are_valid es cs e

pub are_valid-append :
    (cs : List TaskClaimRecord) (c : TaskClaimRecord)
    → are_valid cs ≡ true
    → is_task_claim_record c ≡ true
    → are_valid (cs ++ c ∷ []) ≡ true
are_valid-append [] c h v = ground (arith, v)
are_valid-append (d ∷ cs) c h v = ground (arith, are_valid-append cs c)

pub are_valid-others :
    (t : Text) (cs : List TaskClaimRecord) → are_valid cs ≡ true → are_valid (others t cs) ≡ true
unfolding others
are_valid-others t [] h = refl
are_valid-others t (c ∷ cs) h = ground (arith, are_valid-others t cs)

-- What a splice takes away is one claim that the snapshot is of.
pub record Spliced (r : TaskClaimSnapshot) (cs rest : List TaskClaimRecord) : Type 0 where
  pub valid : are_valid cs ≡ true → are_valid rest ≡ true
  pub one_less : count (is_copy r) cs ≡ suc (count (is_copy r) rest)
  pub others_kept :
      (q : TaskClaimSnapshot)
      → same_claim r q ≡ false
      → count (is_copy q) rest ≡ count (is_copy q) cs

-- A claim is of one snapshot.
copy_of_one :
    (r q : TaskClaimSnapshot) (c : TaskClaimRecord) (id : Option Text)
    → (is_for r.task_id c && has_id id r.claim_id) ≡ true
    → same_claim r q ≡ false
    → (is_for q.task_id c && has_id id q.claim_id) ≡ false
copy_of_one r q c none h d = ground arith
copy_of_one r q c (some id) h d = ground (
  arith,
  text_eq_iff c.task_id r.task_id,
  text_eq_iff c.task_id q.task_id,
  text_eq_iff r.task_id q.task_id,
  text_eq_iff id r.claim_id,
  text_eq_iff id q.claim_id,
  text_eq_iff r.claim_id q.claim_id,
)

pub splice-Spliced :
    (r : TaskClaimSnapshot) (cs rest : List TaskClaimRecord)
    → splice r cs ≡ some rest
    → Spliced r cs rest
unfolding splice
splice-Spliced r [] rest e = cc
splice-Spliced r (c ∷ cs) rest e = elim (Bool-cases (is_copy r c)) [
  | inl mine ↦
      let same : cs ≡ rest = ground (arith, rw (mine, splice) at e) in
      subst (Spliced r (c ∷ cs)) same (record {
        valid = λ h. ground arith;
        one_less = rw mine refl;
        others_kept = λ q d. rw (copy_of_one r q c c.claim_id mine d) refl;
      })
  | inr other ↦ elim (Option-cases (splice r cs)) [
    | inl absent ↦ absurd (none-ne-some (rw (other, absent, splice) at e))
    | inr (kept, found) ↦
        let ih = splice-Spliced r cs kept found in
        let same : c ∷ kept ≡ rest = ground (arith, rw (other, found, splice) at e) in
        subst (Spliced r (c ∷ cs)) same (record {
          valid = λ h. ground (arith, ih.valid);
          one_less = rw (other, ih.one_less) refl;
          others_kept = λ q d. ground (arith, ih.others_kept q d);
        })
  ]
]
  where
    none-ne-some : ◌≡◌ {A = Option (List TaskClaimRecord)} none (some rest) → ⊥
    none-ne-some h = cc

pub splice-none :
    (r : TaskClaimSnapshot) (cs : List TaskClaimRecord)
    → splice r cs ≡ none
    → count (is_copy r) cs ≡ 0
unfolding splice
splice-none r [] e = refl
splice-none r (c ∷ cs) e = elim (Bool-cases (is_copy r c)) [
  | inl mine ↦ absurd (some-ne-none (rw (mine, splice) at e))
  | inr other ↦ elim (Option-cases (splice r cs)) [
    | inl absent ↦ rw other (splice-none r cs absent)
    | inr (kept, found) ↦ absurd (some-ne-none (rw (other, found, splice) at e))
  ]
]
  where
    some-ne-none :
        {l : List TaskClaimRecord} → ◌≡◌ {A = Option (List TaskClaimRecord)} (some l) none → ⊥
    some-ne-none h = cc

snapshot_is_copy :
    (c : TaskClaimRecord) (id : Option Text) (r : TaskClaimSnapshot)
    → c.claim_id ≡ id
    → as_snapshot (some c) ≡ some r
    → is_copy r c ≡ true
unfolding as_snapshot
snapshot_is_copy c none r e h = absurd (ground (arith, rw (e, as_snapshot) at h))
snapshot_is_copy c (some id) r e h =
    let h' = rw (e, as_snapshot) at h in
    let made : TaskClaimSnapshot = record {
      task_id = c.task_id;
      claimed_at = c.claimed_at;
      claim_id = id;
    } in
    let same : made ≡ r = ground (arith, h') in
    subst (λ r. is_copy r c ≡ true) same (rw (e, text_eq_refl c.task_id) (text_eq_refl id))

pub find-copies :
    (t : Text) (cs : List TaskClaimRecord) (r : TaskClaimSnapshot)
    → as_snapshot (find (is_for t) cs) ≡ some r
    → (count (is_copy r) cs == 0) ≡ false
unfolding as_snapshot
find-copies t [] r e = cc
find-copies t (c ∷ cs) r e = elim (Bool-cases (is_for t c)) [
  | inl mine ↦
      let copy = snapshot_is_copy c c.claim_id r refl (rw mine at e) in rw copy (ground arith)
  | inr other ↦ more (is_copy r c) (count (is_copy r) cs) (find-copies t cs r (rw other at e))
]
  where
    more : (b : Bool) (n : ℕ) → (n == 0) ≡ false → ((if b then suc n else n) == 0) ≡ false
    more true n h = ground arith
    more false n h = h
