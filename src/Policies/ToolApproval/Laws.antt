-- ===== src/Policies/ToolApproval/Laws.antt =====
-- One approval, one call: what a consumption takes, and what becomes of a spent record.
use agentlily_runtime.Common.{
  Text, ℕ, ◌<◌, ltb, ◌≡◌, refl, ap, subst, Bool, true, false, ◌&&◌, inl, inr, Option, none, some,
  List, [], ◌∷◌, arith, text_eq, text_eq_iff, text_eq_refl, is_some, is_blank, get_or, Bool-cases,
}
use agentlily_runtime.Common.Dict.{get, set, Distinct, get-none}
use agentlily_runtime.Errors.{Result, ok, err, Error, Result-cases, ok-injective, ◌>>=◌}
use agentlily_runtime.Policies.ToolApproval.{
  ToolApprovalRecord, ToolApprovalConsumeRequest, approved, ToolApprovalStore, is_match, is_current,
  first_valid, take_approval, consume_at, consume,
}

module _ {P : Type 0} (digest : P → Result Text) (instant : Text → Result ℕ) (iso : ℕ → Text) where
  -- The five fields that bind a record to an invocation.
  pub record IsBound (q : ToolApprovalConsumeRequest P) (runtime_id d : Text)
      (r : ToolApprovalRecord) : Type 0 where
    pub runtime : r.runtime_id ≡ runtime_id
    pub task : r.task_id ≡ q.task_id
    pub agent : r.agent_id ≡ q.agent_id
    pub tool : r.tool_name ≡ q.tool_name
    pub payload : r.payload_digest ≡ d

  -- There is no expiry, or it is a later instant than `now`.
  abbrev pub IsCurrent : Option Text → ℕ → Type 0
  IsCurrent none now = Unit
  IsCurrent (some at) now = (t : ℕ) × (instant at ≡ ok t) × (now < t)

  is_match-IsBound :
      (q : ToolApprovalConsumeRequest P) (runtime_id d : Text) (r : ToolApprovalRecord)
      → is_match digest instant iso q runtime_id d r ≡ true
      → IsBound q runtime_id d r
  unfolding is_match
  is_match-IsBound q runtime_id d r m = record {
    runtime = ground (arith, text_eq_iff r.runtime_id runtime_id);
    task = ground (arith, text_eq_iff r.task_id q.task_id);
    agent = ground (arith, text_eq_iff r.agent_id q.agent_id);
    tool = ground (arith, text_eq_iff r.tool_name q.tool_name);
    payload = ground (arith, text_eq_iff r.payload_digest d);
  }

  none_of : (o : Option Text) → is_some o ≡ false → o ≡ none
  none_of none h = refl
  none_of (some a) h = cc

  is_match-unspent :
      (q : ToolApprovalConsumeRequest P) (runtime_id d : Text) (r : ToolApprovalRecord)
      → is_match digest instant iso q runtime_id d r ≡ true
      → (r.consumed_at ≡ none) × (r.revoked_at ≡ none)
  unfolding is_match
  is_match-unspent q runtime_id d r m =
      (none_of r.consumed_at (ground arith), none_of r.revoked_at (ground arith))

  later_instant :
      (t : Result ℕ) (now : ℕ)
      → (t >>= λ t. ok (ltb now t)) ≡ ok true
      → (u : ℕ) × (t ≡ ok u) × (now < u)
  later_instant (ok u) now e = (u, refl, ground (arith, ok-injective e))
  later_instant (err x) now e = absurd (ground arith)

  expiry-IsCurrent :
      (at : Option Text) (now : ℕ)
      → (elim at [ none ↦ ok true | some at ↦ instant at >>= λ t. ok (ltb now t) ]) ≡ ok true
      → IsCurrent at now
  expiry-IsCurrent none now e = tt
  expiry-IsCurrent (some at) now e = later_instant (instant at) now e

  is_current-IsCurrent :
      (r : ToolApprovalRecord) (now : ℕ)
      → is_current digest instant iso r now ≡ ok true
      → IsCurrent r.expires_at now
  unfolding is_current
  is_current-IsCurrent r now e = expiry-IsCurrent r.expires_at now e

  -- The loop takes a record that stands under its key, matches and has not expired.
  pub record Found (q : ToolApprovalConsumeRequest P) (runtime_id d : Text) (now : ℕ)
      (m : List (Text × ToolApprovalRecord)) (k : Text) (r : ToolApprovalRecord) : Type 0 where
    pub stored : get k m ≡ some r
    pub bound : IsBound q runtime_id d r
    pub unconsumed : r.consumed_at ≡ none
    pub unrevoked : r.revoked_at ≡ none
    pub current : IsCurrent r.expires_at now

  pub first_valid-Found :
      (q : ToolApprovalConsumeRequest P) (runtime_id d : Text) (now : ℕ)
      (m : List (Text × ToolApprovalRecord)) (k : Text) (r : ToolApprovalRecord)
      → Distinct m
      → first_valid digest instant iso q runtime_id d now m ≡ ok (some (k, r))
      → Found q runtime_id d now m k r
  unfolding first_valid get
  first_valid-Found q runtime_id d now [] k r h e = absurd (ground arith)
  first_valid-Found q runtime_id d now ((j, a) ∷ m) k r h e =
      let ih = first_valid-Found q runtime_id d now m k r h.1 in
      elim (Bool-cases (is_match digest instant iso q runtime_id d a)) [
        | inr other ↦ later ih (rw (other, first_valid) at e)
        | inl mine ↦ elim (Result-cases (is_current digest instant iso a now)) [
          | inr (x, bad) ↦ absurd (clash (rw (mine, bad, first_valid) at e))
          | inl (true, c) ↦ here mine c (rw (mine, c, first_valid) at e)
          | inl (false, c) ↦ later ih (rw (mine, c, first_valid) at e)
        ]
      ]
    where
      clash :
          {x : Error}
          → ◌≡◌ {A = Result (Option (Text × ToolApprovalRecord))} (err x) (ok (some (k, r)))
          → ⊥
      clash p = cc

      here :
          is_match digest instant iso q runtime_id d a ≡ true
          → is_current digest instant iso a now ≡ ok true
          → ◌≡◌ {A = Result (Option (Text × ToolApprovalRecord))}
              (ok (some (j, a)))
              (ok (some (k, r)))
          → Found q runtime_id d now ((j, a) ∷ m) k r
      here mine c p =
          subst (λ x. Found q runtime_id d now ((j, a) ∷ m) x.0 x.1)
            (ap (λ o. get_or o (j, a)) (ok-injective p))
            (record {
              stored = ground (arith, text_eq_refl j);
              bound = is_match-IsBound q runtime_id d a mine;
              unconsumed = (is_match-unspent q runtime_id d a mine).0;
              unrevoked = (is_match-unspent q runtime_id d a mine).1;
              current = is_current-IsCurrent a now c;
            })

      later :
          (first_valid digest instant iso q runtime_id d now m ≡ ok (some (k, r))
            → Found q runtime_id d now m k r)
          → first_valid digest instant iso q runtime_id d now m ≡ ok (some (k, r))
          → Found q runtime_id d now ((j, a) ∷ m) k r
      later ih p =
          let f = ih p in
          record {
            stored = ground (arith, f.stored, h.0, get-none j m, text_eq_iff j k);
            bound = f.bound;
            unconsumed = f.unconsumed;
            unrevoked = f.unrevoked;
            current = f.current;
          }

  module _ (q : ToolApprovalConsumeRequest P) (now : ℕ) (s : ToolApprovalStore) where
    -- What a consumption that approves has done: a record of the store that was neither consumed nor
    -- revoked, is of this runtime, task, agent, tool and payload, and had not expired, is consumed;
    -- no other record changes.
    pub record Consumes (rec : ToolApprovalRecord) (s' : ToolApprovalStore) : Type 0 where
      pub key : Text
      pub before : ToolApprovalRecord
      pub payload_digest : Text
      pub digested : digest q.payload ≡ ok payload_digest
      pub found :
          Found q (get_or q.runtime_id s.runtime_id) payload_digest now s.approvals key before
      pub own_runtime : get_or q.runtime_id s.runtime_id ≡ s.runtime_id
      pub taken : rec ≡ record before { consumed_at = some (iso now) }
      pub after : s'.approvals ≡ set key rec s.approvals

    taken_of :
        (d : Text)
        → digest q.payload ≡ ok d
        → get_or q.runtime_id s.runtime_id ≡ s.runtime_id
        → Distinct s.approvals
        → (f : Result (Option (Text × ToolApprovalRecord)))
        → first_valid digest instant iso q (get_or q.runtime_id s.runtime_id) d now s.approvals ≡ f
        → (rec : ToolApprovalRecord) (s' : ToolApprovalStore)
        → (f >>= λ found. ok (take_approval digest instant iso now found s)) ≡ ok (s', approved rec)
        → Consumes rec s'
    unfolding take_approval
    taken_of d e own h (err x) p rec s' g = absurd (ground arith)
    taken_of d e own h (ok none) p rec s' g = absurd (ground arith)
    taken_of d e own h (ok (some (k, r))) p rec s' g = record {
      key = k;
      before = r;
      payload_digest = d;
      digested = e;
      found = first_valid-Found q (get_or q.runtime_id s.runtime_id) d now s.approvals k r h p;
      own_runtime = own;
      taken = ground arith;
      after = ground arith;
    }

    -- A consumption that approves, on a store whose identifiers are distinct, is of one record that
    -- was neither consumed nor revoked, has no expiry or one at a later instant, and has exactly the
    -- runtime, task, agent and tool of the request and the digest of its payload; it consumes that
    -- record and changes no other.
    pub consume-Consumes :
        (rec : ToolApprovalRecord) (s' : ToolApprovalStore)
        → Distinct s.approvals
        → consume digest instant iso q (some now) s ≡ ok (s', approved rec)
        → Consumes rec s'
    unfolding consume consume_at
    consume-Consumes rec s' h e =
        go (digest q.payload) refl (text_eq (get_or q.runtime_id s.runtime_id) s.runtime_id) refl
          (is_some q.runtime_id && is_blank (get_or q.runtime_id s.runtime_id)) refl
      where
        go :
            (d : Result Text)
            → digest q.payload ≡ d
            → (b : Bool) → text_eq (get_or q.runtime_id s.runtime_id) s.runtime_id ≡ b
            → (a : Bool) → (is_some q.runtime_id && is_blank (get_or q.runtime_id s.runtime_id)) ≡ a
            → Consumes rec s'
        go d p b o true n = absurd (ground arith)
        go d p false o false n = absurd (ground arith)
        go (err x) p true o false n = absurd (ground arith)
        go (ok d) p true o false n =
            taken_of d p ((text_eq_iff _ _).0 o) h _ refl rec s' (rw (p, o, n, consume) at e)
