-- ===== src/Memory/Select.antt =====
-- Reading: the loop over the entries against filter, skip and take.
use mathlib.Core.List.{append-nil, append_assoc}
use agentlily_runtime.Common.{
  Text, ℕ, zero, suc, ◌-◌, ◌≡◌, refl, ap, sym, ◌∙◌, true, false, Option, none, some, List, [], ◌∷◌,
  ◌++◌, arith, length, keep, get_or, ltb, Bool-cases, inl, inr, length-append,
}
use agentlily_runtime.Errors.{Result, ok, err, ◌>>=◌, Result-cases}
use agentlily_runtime.Memory.{
  MemoryEntry, of_agent, copy, is_enough, select_from, select_memory_entries,
}

module _ {ℓ} {A : Type ℓ} where
  abbrev pub take : ℕ → List A → List A
  take zero xs = []
  take (suc n) [] = []
  take (suc n) (x ∷ xs) = x ∷ take n xs

  abbrev pub drop : ℕ → List A → List A
  drop zero xs = xs
  drop (suc n) [] = []
  drop (suc n) (x ∷ xs) = drop n xs

  -- The first `limit` elements, or all.
  abbrev pub take_limit : Option ℕ → List A → List A
  take_limit none xs = xs
  take_limit (some n) xs = take n xs

-- The part of the limit that is left.
abbrev less : Option ℕ → ℕ → Option ℕ
less none n = none
less (some limit) n = some (limit - n)

take_limit-cons :
    {A : Type 0} (limit : Option ℕ) (n : ℕ) (x : A) (xs : List A)
    → is_enough limit n ≡ false
    → take_limit (less limit n) (x ∷ xs) ≡ x ∷ take_limit (less limit (suc n)) xs
take_limit-cons none n x xs h = refl
take_limit-cons (some l) n x xs h =
    let e : l - n ≡ suc (l - suc n) = ground arith in ap (λ k. take k (x ∷ xs)) e

take_limit-enough :
    {A : Type 0} (limit : Option ℕ) (n : ℕ) (xs : List A)
    → is_enough limit n ≡ true
    → take_limit (less limit n) xs ≡ []
take_limit-enough none n xs h = cc
take_limit-enough (some l) n xs h = let e : l - n ≡ 0 = ground arith in ap (λ k. take k xs) e

less-zero : (limit : Option ℕ) → less limit 0 ≡ limit
less-zero none = refl
less-zero (some l) = ap some (omega arith)

nothing_wanted :
    {A : Type 0} (limit : Option ℕ) (xs : List A)
    → is_enough limit 0 ≡ true
    → take_limit limit xs ≡ []
nothing_wanted none xs h = cc
nothing_wanted (some zero) xs h = refl
nothing_wanted (some (suc l)) xs h = absurd (ground arith)

nothing_left :
    {A : Type 0} (limit : Option ℕ) (offset : ℕ) → take_limit {A = A} limit (drop offset []) ≡ []
nothing_left none zero = refl
nothing_left none (suc o) = refl
nothing_left (some zero) o = refl
nothing_left (some (suc l)) zero = refl
nothing_left (some (suc l)) (suc o) = refl

module _ {V : Type 0} (clone : V → Result V) where
  -- Copies in order, up to the first that fails.
  unfoldable pub copies : List (MemoryEntry V) → Result (List (MemoryEntry V))
  copies [] = ok []
  copies (e ∷ es) = do e' ← copy clone e; rest ← copies es; ok (e' ∷ rest)

  -- What the loop has still to give, in front of what it has selected.
  abbrev prepend :
      List (MemoryEntry V) → Result (List (MemoryEntry V)) → Result (List (MemoryEntry V))
  prepend selected r = r >>= λ rest. ok (selected ++ rest)

  -- The selection that is still to be made when `n` entries have been selected.
  abbrev pending : Text → Option ℕ → ℕ → ℕ → List (MemoryEntry V) → Result (List (MemoryEntry V))
  pending agent_id limit offset n es =
      copies (take_limit (less limit n) (drop offset (keep (of_agent agent_id) es)))

  regroup :
      (selected : List (MemoryEntry V)) (e : MemoryEntry V) (r : Result (List (MemoryEntry V)))
      → prepend (selected ++ e ∷ []) r ≡ prepend selected (r >>= λ rest. ok (e ∷ rest))
  regroup selected e (ok rest) = ap ok (append_assoc selected (e ∷ []) rest)
  regroup selected e (err x) = refl

  module _ (agent_id : Text) (limit : Option ℕ) (e : MemoryEntry V) (es : List (MemoryEntry V))
      (ih : (offset : ℕ) (selected : List (MemoryEntry V))
        → is_enough limit (length selected) ≡ false
        → select_from clone agent_id limit offset selected es
          ≡ prepend selected (pending agent_id limit offset (length selected) es))
      (selected : List (MemoryEntry V)) (open_ : is_enough limit (length selected) ≡ false) where
    -- The agent's next entry is copied and selected.
    select_here :
        of_agent agent_id e ≡ true
        → select_from clone agent_id limit 0 selected (e ∷ es)
          ≡ prepend selected (pending agent_id limit 0 (length selected) (e ∷ es))
    unfolding select_from copies
    select_here mine =
        rw (mine, take_limit-cons limit (length selected) e (keep (of_agent agent_id) es) open_)
          (elim (Result-cases (copy clone e)) [
            | inr (x, failed) ↦ rw failed
            | inl (e', copied) ↦
                rw copied (elim (Bool-cases (is_enough limit (suc (length selected)))) [
                  | inl full ↦ rw (
                    full,
                    take_limit-enough limit (suc (length selected)) (keep (of_agent agent_id) es)
                        full,
                  )
                  | inr more ↦ rw more (select_rest e' more)
                ])
          ])
      where
        select_rest :
            (e' : MemoryEntry V)
            → is_enough limit (suc (length selected)) ≡ false
            → select_from clone agent_id limit 0 (selected ++ e' ∷ []) es
              ≡ prepend selected
                  (pending agent_id limit 0 (suc (length selected)) es >>= λ rest. ok (e' ∷ rest))
        select_rest e' more =
            let len : length (selected ++ e' ∷ []) ≡ suc (length selected) =
              omega (arith, length-append selected (e' ∷ [])) in
            ih 0 (selected ++ e' ∷ []) (rw len more)
            ∙ ap (λ n. prepend (selected ++ e' ∷ []) (pending agent_id limit 0 n es)) len
            ∙ regroup selected e' (pending agent_id limit 0 (suc (length selected)) es)

  select_from_lem :
      (agent_id : Text) (limit : Option ℕ) (offset : ℕ) (selected es : List (MemoryEntry V))
      → is_enough limit (length selected) ≡ false
      → select_from clone agent_id limit offset selected es
        ≡ prepend selected (pending agent_id limit offset (length selected) es)
  unfolding select_from copies
  select_from_lem agent_id limit offset selected [] h =
      rw (nothing_left (less limit (length selected)) offset) (ap ok (sym (append-nil selected)))
  select_from_lem agent_id limit zero selected (e ∷ es) h =
      elim (Bool-cases (of_agent agent_id e)) [
        | inl mine ↦
            select_here agent_id limit e es (λ o s k. select_from_lem agent_id limit o s es k)
              selected h mine
        | inr other ↦ rw other (select_from_lem agent_id limit zero selected es h)
      ]
  select_from_lem agent_id limit (suc offset) selected (e ∷ es) h =
      elim (Bool-cases (of_agent agent_id e)) [
        | inl mine ↦
            let one_less : suc offset - 1 ≡ offset = omega arith in
            let positive : ltb 0 (suc offset) ≡ true = ground arith in
            rw (mine, positive, one_less) (select_from_lem agent_id limit offset selected es h)
        | inr other ↦ rw other (select_from_lem agent_id limit (suc offset) selected es h)
      ]

  -- `listByAgent` returns copies of the agent's entries in order, `offset` of them skipped and at
  -- most `limit` taken; it throws exactly when one of those copies does.
  pub select_memory_entries_lem :
      (entries : List (MemoryEntry V)) (agent_id : Text) (limit offset : Option ℕ)
      → select_memory_entries clone entries agent_id limit offset
        ≡ copies (take_limit limit (drop (get_or offset 0) (keep (of_agent agent_id) entries)))
  unfolding select_memory_entries
  select_memory_entries_lem entries agent_id limit offset = elim (Bool-cases (is_enough limit 0)) [
    | inl full ↦
        rw
          (
            full,
            nothing_wanted limit (drop (get_or offset 0) (keep (of_agent agent_id) entries)) full,
          )
          (unfold copies in refl)
    | inr more ↦
        rw (more, select_from_lem agent_id limit (get_or offset 0) [] entries more)
          (whole (pending agent_id limit (get_or offset 0) 0 entries)
            ∙ ap
                (λ l.
                  copies (take_limit l (drop (get_or offset 0) (keep (of_agent agent_id) entries))))
                (less-zero limit))
  ]
    where
      whole : (r : Result (List (MemoryEntry V))) → prepend [] r ≡ r
      whole (ok l) = refl
      whole (err x) = refl
