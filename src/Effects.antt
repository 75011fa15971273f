-- ===== src/Effects.antt =====
-- Code that acts on a state and can throw: the state after it stands beside the result, also when
-- it throws. A handler is `catch`.
use agentlily_runtime.Common.{◌≡◌, refl, ◌⊎◌, inl, inr}
use agentlily_runtime.Errors.{Result, ok, err, Error}

abbrev pub Action : Type 0 → Type 0 → Type 0
Action S A = S → Result A × S

abbrev pub continue : {S A B : Type 0} → (A → Action S B) → Result A × S → Result B × S
continue f (ok a, s) = f a s
continue f (err e, s) = (err e, s)

infixl 5 ◌>>=◌ ◌>>◌
abbrev pub ◌>>=◌ : {S A B : Type 0} → Action S A → (A → Action S B) → Action S B
◌>>=◌ m f s = continue f (m s)

abbrev pub ◌>>◌ : {S B : Type 0} → Action S (Unit {0}) → Action S B → Action S B
m >> k = m >>= λ _. k

abbrev pub return : {S A : Type 0} → A → Action S A
return a s = (ok a, s)

abbrev pub throw : {S A : Type 0} → Error → Action S A
throw e s = (err e, s)

-- Code that leaves the state alone.
abbrev pub lift : {S A : Type 0} → Result A → Action S A
lift r s = (r, s)

-- `try { m } catch { handler }`
abbrev pub recover : {S A : Type 0} → (Error → Action S A) → Result A × S → Result A × S
recover handler (ok a, s) = (ok a, s)
recover handler (err e, s) = handler e s

abbrev pub catch : {S A : Type 0} → Action S A → (Error → Action S A) → Action S A
catch m handler s = recover handler (m s)

-- The two ways in which an action ends.
pub Action-cases :
    {S A : Type 0} (r : Result A × S)
    → ((a : A) × (s : S) × (r ≡ (ok a, s))) ⊎ ((e : Error) × (s : S) × (r ≡ (err e, s)))
Action-cases (ok a, s) = inl (a, s, refl)
Action-cases (err e, s) = inr (e, s, refl)
