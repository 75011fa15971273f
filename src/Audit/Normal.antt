-- ===== src/Audit/Normal.antt =====
-- Values as JSON keeps them: what `JSON.parse` gives back of a canonical text.
use agentlily_runtime.Common.{ℕ, ◌+◌, ◌≡◌, refl, ap, ◌∷◌, Option, none, some, Text, lit, arith}
use agentlily_runtime.Audit.CanonicalJson.{
  Value, null, minus_zero, nat, text, array, object, Items, nil, cons, Fields, end, field, ◌>>=◌,
  canonical_audit_json, canonical_items, canonical_fields, keys, exact_audit_keys,
}
use agentlily_runtime.Audit.Schema.{
  assert_runtime_event_for_audit, is_event_fields, is_event_name, get_field,
}

-- A value as JSON keeps it: the negative zero is written as 0.
unfoldable mutual
  pub normal : Value → Value
  normal minus_zero = nat 0
  normal (array items) = array (normal_items items)
  normal (object fields) = object (normal_fields fields)
  normal value = value

  pub normal_items : Items → Items
  normal_items nil = nil
  normal_items (cons value items) = cons (normal value) (normal_items items)

  pub normal_fields : Fields → Fields
  normal_fields end = end
  normal_fields (field key value fields) = field key (normal value) (normal_fields fields)

mutual
  unfolding normal canonical_audit_json

  pub canonical-normal_value :
      (depth : ℕ) (v : Value) → canonical_audit_json depth (normal v) ≡ canonical_audit_json depth v
  canonical-normal_value depth minus_zero = refl
  canonical-normal_value depth (array items) = rw (canonical-normal_items (depth + 1) items) refl
  canonical-normal_value depth (object fields) =
      rw (canonical-normal_fields (depth + 1) fields) refl
  canonical-normal_value depth null = refl
  canonical-normal_value depth _ = refl

  pub canonical-normal_items :
      (depth : ℕ) (items : Items)
      → canonical_items depth (normal_items items) ≡ canonical_items depth items
  canonical-normal_items depth nil = refl
  canonical-normal_items depth (cons v items) =
      rw (canonical-normal_value depth v, canonical-normal_items depth items) refl

  pub canonical-normal_fields :
      (depth : ℕ) (fields : Fields)
      → canonical_fields depth (normal_fields fields) ≡ canonical_fields depth fields
  canonical-normal_fields depth end = refl
  canonical-normal_fields depth (field k v fields) =
      rw (canonical-normal_value depth v, canonical-normal_fields depth fields) refl

keys-normal : (fields : Fields) → keys (normal_fields fields) ≡ keys fields
unfolding keys normal
keys-normal end = refl
keys-normal (field k v fields) = ap (λ ks. k ∷ ks) (keys-normal fields)

normal_option : Option Value → Option Value
normal_option none = none
normal_option (some v) = some (normal v)

get_field-normal :
    (key : Text) (fields : Fields)
    → get_field key (normal_fields fields) ≡ normal_option (get_field key fields)
unfolding get_field normal normal_option
get_field-normal key end = refl
get_field-normal key (field k v fields) = ground (arith, get_field-normal key fields)

is_event_name-normal : (v : Value) → is_event_name (normal v) ≡ is_event_name v
unfolding normal
is_event_name-normal (text s) = refl
is_event_name-normal _ = refl

is_event_fields-normal :
    (n p : Option Value) → is_event_fields (normal_option n) (normal_option p) ≡ is_event_fields n p
unfolding is_event_fields normal_option
is_event_fields-normal none p = refl
is_event_fields-normal (some n) none = refl
is_event_fields-normal (some n) (some p) =
    rw (is_event_fields, canonical-normal_value 0 p, is_event_name-normal n) refl

pub assert-normal :
    (v : Value) → assert_runtime_event_for_audit (normal v) ≡ assert_runtime_event_for_audit v
unfolding assert_runtime_event_for_audit exact_audit_keys normal
assert-normal (object fields) =
    rw
      (
        keys-normal fields,
        get_field-normal (lit "name") fields,
        get_field-normal (lit "payload") fields,
        is_event_fields-normal,
      )
      refl
assert-normal _ = refl

-- What `JSON.parse` makes of a value's canonical text.
unfoldable pub read_back : (Text → Option Value) → Value → Option Value
unfolding canonical_audit_json
read_back parse v = canonical_audit_json 0 v >>= parse

-- `JSON.parse` reads the canonical text of a value back.
abbrev pub IsReadBack : (Text → Option Value) → Value → Type 0
IsReadBack parse v = read_back parse v ≡ some (normal v)

pub read_back-text :
    (parse : Text → Option Value) (v : Value) (s : Text)
    → IsReadBack parse v
    → canonical_audit_json 0 v ≡ some s
    → parse s ≡ some (normal v)
unfolding read_back
read_back-text parse v s read e = rw (e, read_back) at read
