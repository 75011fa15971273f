-- ===== src/Common/Dict.antt =====
-- A JavaScript `Map` with string keys: the entries in insertion order. A `Set` of strings is a
-- list of its members.
use agentlily_runtime.Common.Tests.{if◌then◌else◌}
use agentlily_runtime.Common.Lists.{length}
use agentlily_runtime.Common.Texts.{Text, text_eq, text_eq_iff, text_eq_refl}
use Prim.Native.Nat.{suc, ◌+◌}
use mathlib.Core.Path.{◌≡◌, refl}
use mathlib.Core.Bool.{Bool, true, false, ◌||◌}
use mathlib.Core.Option.{Option, none, some}
use mathlib.Core.List.{List, [], ◌∷◌, ◌++◌}
use native.Mathlib.Omega.{arith}

module _ {ℓ} {V : Type ℓ} where
  unfoldable pub get : Text → List (Text × V) → Option V
  get k [] = none
  get k ((j, v) ∷ m) = if text_eq j k then some v else get k m

  unfoldable pub has : Text → List (Text × V) → Bool
  has k [] = false
  has k ((j, v) ∷ m) = text_eq j k || has k m

  -- A present key keeps its place.
  unfoldable pub set : Text → V → List (Text × V) → List (Text × V)
  set k v [] = (k, v) ∷ []
  set k v ((j, w) ∷ m) = if text_eq j k then (j, v) ∷ m else (j, w) ∷ set k v m

  unfoldable pub delete : Text → List (Text × V) → List (Text × V)
  delete k [] = []
  delete k ((j, v) ∷ m) = if text_eq j k then m else (j, v) ∷ delete k m

  -- `map.keys().next().value`
  abbrev pub oldest : List (Text × V) → Option Text
  oldest [] = none
  oldest ((k, v) ∷ m) = some k

  abbrev pub keys : List (Text × V) → List Text
  keys [] = []
  keys ((k, v) ∷ m) = k ∷ keys m

  abbrev pub values : List (Text × V) → List V
  values [] = []
  values ((k, v) ∷ m) = v ∷ values m

  -- What a `Map` guarantees: no key occurs twice.
  abbrev pub Distinct : List (Text × V) → Type 0
  Distinct [] = Unit
  Distinct ((k, v) ∷ m) = (has k m ≡ false) × Distinct m

  pub get-none : (k : Text) (m : List (Text × V)) → has k m ≡ false → get k m ≡ none
  unfolding get has
  get-none k [] h = refl
  get-none k ((j, v) ∷ m) h = ground (arith, get-none k m)

  pub get-has : (k : Text) (m : List (Text × V)) → get k m ≡ none → has k m ≡ false
  unfolding get has
  get-has k [] h = refl
  get-has k ((j, v) ∷ m) h = ground (arith, get-has k m)

  pub get-set :
      (k j : Text) (v : V) (m : List (Text × V))
      → get j (set k v m) ≡ (if text_eq k j then some v else get j m)
  unfolding get set
  get-set k j v [] = refl
  get-set k j v ((i, w) ∷ m) =
      ground (arith, text_eq_iff k j, text_eq_iff i k, text_eq_iff i j, get-set k j v m)

  pub has-set :
      (k j : Text) (v : V) (m : List (Text × V)) → has j (set k v m) ≡ text_eq k j || has j m
  unfolding has set
  has-set k j v [] = refl
  has-set k j v ((i, w) ∷ m) =
      ground (arith, text_eq_iff k j, text_eq_iff i k, text_eq_iff i j, has-set k j v m)

  pub has-delete_ne :
      (k j : Text) (m : List (Text × V)) → text_eq k j ≡ false → has j (delete k m) ≡ has j m
  unfolding has delete
  has-delete_ne k j [] h = refl
  has-delete_ne k j ((i, w) ∷ m) h =
      ground (arith, text_eq_iff k j, text_eq_iff i k, text_eq_iff i j, has-delete_ne k j m)

  pub has-delete_le :
      (k j : Text) (m : List (Text × V)) → has j m ≡ false → has j (delete k m) ≡ false
  unfolding has delete
  has-delete_le k j [] h = refl
  has-delete_le k j ((i, w) ∷ m) h = ground (arith, has-delete_le k j m)

  pub has-delete_self : (k : Text) (m : List (Text × V)) → Distinct m → has k (delete k m) ≡ false
  unfolding has delete
  has-delete_self k [] d = refl
  has-delete_self k ((i, w) ∷ m) d = ground (arith, text_eq_iff i k, has-delete_self k m d.1)

  pub get-delete_ne :
      (k j : Text) (m : List (Text × V)) → text_eq k j ≡ false → get j (delete k m) ≡ get j m
  unfolding get delete
  get-delete_ne k j [] h = refl
  get-delete_ne k j ((i, w) ∷ m) h =
      ground (arith, text_eq_iff k j, text_eq_iff i k, text_eq_iff i j, get-delete_ne k j m)

  pub delete-Distinct : (k : Text) (m : List (Text × V)) → Distinct m → Distinct (delete k m)
  unfolding delete
  delete-Distinct k [] d = tt
  delete-Distinct k ((i, w) ∷ m) d =
      ground (arith, delete-Distinct k m d.1, has-delete_le k i m d.0)

  pub set-Distinct : (k : Text) (v : V) (m : List (Text × V)) → Distinct m → Distinct (set k v m)
  unfolding set has
  set-Distinct k v [] d = (refl, tt)
  set-Distinct k v ((i, w) ∷ m) d =
      ground (arith, set-Distinct k v m d.1, has-set k i v m, text_eq_iff k i, text_eq_iff i k)

  pub length-set :
      (k : Text) (v : V) (m : List (Text × V))
      → length (set k v m) ≡ (if has k m then length m else suc (length m))
  unfolding set has
  length-set k v [] = refl
  length-set k v ((i, w) ∷ m) = ground (arith, length-set k v m)

  pub length-delete :
      (k : Text) (m : List (Text × V)) → length (delete k m) + (if has k m then 1 else 0) ≡ length m
  unfolding delete has
  length-delete k [] = refl
  length-delete k ((i, w) ∷ m) = ground (arith, length-delete k m)

  -- A new key goes to the end.
  pub set-new :
      (k : Text) (v : V) (m : List (Text × V)) → has k m ≡ false → set k v m ≡ m ++ (k, v) ∷ []
  unfolding set has
  set-new k v [] h = refl
  set-new k v ((i, w) ∷ m) h = ground (arith, set-new k v m)

  -- A known key keeps its place.
  pub keys-set :
      (k : Text) (v : V) (m : List (Text × V)) → has k m ≡ true → keys (set k v m) ≡ keys m
  unfolding set has
  keys-set k v [] h = cc
  keys-set k v ((i, w) ∷ m) h = ground (arith, keys-set k v m)

  -- The dictionary after its first entry is deleted.
  pub delete-oldest : (k : Text) (v : V) (m : List (Text × V)) → delete k ((k, v) ∷ m) ≡ m
  unfolding delete
  delete-oldest k v m = ground (arith, text_eq_refl k)

-- Sets of strings.
unfoldable pub member : Text → List Text → Bool
member k [] = false
member k (j ∷ s) = text_eq j k || member k s

unfoldable pub add : Text → List Text → List Text
unfolding member
add k s = if member k s then s else s ++ k ∷ []

unfoldable pub remove : Text → List Text → List Text
remove k [] = []
remove k (j ∷ s) = let rest = remove k s in if text_eq j k then rest else j ∷ rest

pub member-add : (k j : Text) (s : List Text) → member j (add k s) ≡ text_eq k j || member j s
unfolding add member
member-add k j s = ground (arith, member-snoc k j s, text_eq_iff k j, member-known k j s)
  where
    member-snoc : (k j : Text) (s : List Text) → member j (s ++ k ∷ []) ≡ text_eq k j || member j s
    member-snoc k j [] = ground arith
    member-snoc k j (i ∷ s) = ground (arith, member-snoc k j s)

    member-known : (k j : Text) (s : List Text) → member k s ≡ true → k ≡ j → member j s ≡ true
    member-known k j s h e = rw (← e) h

pub member-remove :
    (k j : Text) (s : List Text)
    → member j (remove k s) ≡ (if text_eq k j then false else member j s)
unfolding remove member
member-remove k j [] = ground arith
member-remove k j (i ∷ s) =
    ground (arith, member-remove k j s, text_eq_iff k j, text_eq_iff i j, text_eq_iff i k)
