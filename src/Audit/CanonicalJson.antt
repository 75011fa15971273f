-- ===== src/Audit/CanonicalJson.antt =====
-- src/audit/canonical-json.ts. A value is a tree; what the function refuses to inspect (a cycle, a
-- foreign prototype, an accessor, a symbol, a hole in an array) is `unsafe`. The fields of an object
-- are listed in the order of `sort()`: both readers of keys sort them, so no other order is seen.
-- `none` is the error AUDIT_CANONICALIZATION_FAILED.
use agentlily_runtime.Common.{
  ℕ, ◌+◌, ◌*◌, Bool, true, false, ◌&&◌, List, [], ◌∷◌, ◌++◌, Option, none, some, Text, lit, ltb,
  text_eq, if◌then◌else◌,
}
use agentlily_runtime.Common.Decimal.{decimal}
use agentlily_runtime.Common.Encoding.{byte_length, json_string, join}

abbrev pub max_canonical_depth : ℕ
max_canonical_depth = 12

abbrev pub max_string_bytes : ℕ
max_string_bytes = 16 * 1024

-- `nat` is a natural number up to 2^53 - 1, and `real` any other finite number, by its JSON text:
-- only these naturals are printed in decimals, and the larger ones are rounded or have an exponent.
mutual
  pub data Value : Type 0 where
    null unsupported unsafe not_finite minus_zero : Value
    bool : Bool → Value
    nat : ℕ → Value
    real : Text → Value
    text : Text → Value
    array : Items → Value
    object : Fields → Value

  pub data Items : Type 0 where
    nil : Items
    cons : Value → Items → Items

  pub data Fields : Type 0 where
    end : Fields
    field : Text → Value → Fields → Fields

infixl 5 ◌>>=◌
abbrev pub ◌>>=◌ : {A B : Type 0} → Option A → (A → Option B) → Option B
none >>= f = none
some a >>= f = f a

abbrev pub in_brackets : ℕ → ℕ → List Text → Text
in_brackets opening closing parts = opening ∷ (join (lit ",") parts ++ closing ∷ [])

unfoldable mutual
  unfolding json_string decimal byte_length join

  pub canonical_audit_json : ℕ → Value → Option Text
  canonical_audit_json depth null =
      if ltb max_canonical_depth depth then none else some (lit "null")
  canonical_audit_json depth (text value) =
      if ltb max_canonical_depth depth
      then none
      else (if ltb max_string_bytes (byte_length value) then none else some (json_string value))
  canonical_audit_json depth (bool b) =
      if ltb max_canonical_depth depth then none else some (if b then lit "true" else lit "false")
  canonical_audit_json depth (nat n) =
      if ltb max_canonical_depth depth then none else some (decimal n)
  canonical_audit_json depth (real value) =
      if ltb max_canonical_depth depth then none else some value
  canonical_audit_json depth minus_zero =
      if ltb max_canonical_depth depth then none else some (lit "0")
  canonical_audit_json depth (array items) =
      let parts = canonical_items (depth + 1) items in
      if ltb max_canonical_depth depth
      then none
      else parts >>= λ ps. some (in_brackets b'[' b']' ps)
  canonical_audit_json depth (object fields) =
      let parts = canonical_fields (depth + 1) fields in
      if ltb max_canonical_depth depth
      then none
      else parts >>= λ ps. some (in_brackets b'{' b'}' ps)
  canonical_audit_json depth _ = none

  pub canonical_items : ℕ → Items → Option (List Text)
  canonical_items depth nil = some []
  canonical_items depth (cons value items) =
      let rest = canonical_items depth items in
      canonical_audit_json depth value >>= λ s. rest >>= λ ss. some (s ∷ ss)

  pub canonical_fields : ℕ → Fields → Option (List Text)
  canonical_fields depth end = some []
  canonical_fields depth (field key value fields) =
      let rest = canonical_fields depth fields in
      canonical_audit_json depth value >>= λ s.
      rest >>= λ ss. some ((json_string key ++ b':' ∷ s) ∷ ss)

-- `Object.keys(value)`
unfoldable pub keys : Fields → List Text
keys end = []
keys (field key value fields) = key ∷ keys fields

abbrev pub texts_eq : List Text → List Text → Bool
texts_eq [] [] = true
texts_eq (s ∷ ss) (t ∷ ts) = text_eq s t && texts_eq ss ts
texts_eq _ _ = false

-- The expected keys are given sorted.
unfoldable pub exact_audit_keys : Fields → List Text → Bool
unfolding keys
exact_audit_keys fields expected = texts_eq (keys fields) expected
