-- ===== src/Policies/PaymentIntent/Payload.antt =====
-- src/policies/payment-intent-policy.ts, lines 171-303: the payload as a JavaScript object with its
-- own properties, the snapshot of it that is judged, and the binding of the object to the snapshot.
pub mod Binding
pub mod Replay
use agentlily_runtime.Common.{
  Bool, true, false, ◌&&◌, not, List, [], ◌∷◌, Option, none, some, Text, text_eq, if◌then◌else◌,
}
use agentlily_runtime.Actions.PaymentPrep.Amount.{JsNumber}
use agentlily_runtime.Actions.PaymentPrep.{
  Field, absent, null, other, text, number, PaymentPrepPayload,
}

-- An own property: none, one with a value, or a getter.
pub data Slot (A : Type 0) : Type 0 where
  unset accessor : Slot A
  value : A → Slot A

-- `frozen` objects take no write.
pub record PayloadObject (N M : Type 0) : Type 0 where
  pub wallet_id : Slot (Field N)
  pub amount : Slot (Field N)
  pub recipient_id : Slot (Field N)
  pub asset_code : Slot (Field N)
  pub asset_issuer : Slot (Field N)
  pub memo : Slot (Field N)
  pub metadata : Slot (Option M)
  pub is_extensible : Bool
  pub is_frozen : Bool

-- What a request carries: `exotic` is an array, a proxy or an object of another prototype.
pub data RawPayload (N M : Type 0) : Type 0 where
  primitive exotic : RawPayload N M
  plain : PayloadObject N M → RawPayload N M

module _ {N : Type 0} where
  -- `readOwnDataField`; `none` is a field that is not plain data.
  unfoldable pub read_own_data_field : Slot (Field N) → Option (Field N)
  read_own_data_field unset = some absent
  read_own_data_field (value f) = some f
  read_own_data_field accessor = none

  -- `typeof value === "string"`
  abbrev pub is_text : Field N → Bool
  is_text (text s) = true
  is_text _ = false

  -- `typeof value === "string" || typeof value === "number"`
  abbrev pub is_amount : Field N → Bool
  is_amount (text s) = true
  is_amount (number x) = true
  is_amount _ = false

  -- `value === undefined || typeof value === "string"`
  abbrev pub is_optional_text : Field N → Bool
  is_optional_text absent = true
  is_optional_text (text s) = true
  is_optional_text _ = false

abbrev pub is_data : {A : Type 0} → Slot A → Bool
is_data accessor = false
is_data _ = true

infixl 5 ◌>>=◌
abbrev ◌>>=◌ : {A B : Type 0} → Option A → (A → Option B) → Option B
none >>= f = none
some a >>= f = f a

module _ {N M : Type 0} where
  -- The values read, if their types are right. The metadata is read and left out.
  unfoldable pub typed_payload :
      PaymentPrepPayload N (Option M) → Option (PaymentPrepPayload N (Option M))
  typed_payload p =
      if is_text p.wallet_id
        && is_amount p.amount
        && is_optional_text p.recipient_id
        && is_optional_text p.asset_code
        && is_optional_text p.asset_issuer
        && is_optional_text p.memo
      then some p
      else none

  unfoldable pub snapshot_object : PayloadObject N M → Option (PaymentPrepPayload N (Option M))
  unfolding read_own_data_field typed_payload
  snapshot_object o = do
    wallet_id ← read_own_data_field o.wallet_id
    amount ← read_own_data_field o.amount
    recipient_id ← read_own_data_field o.recipient_id
    asset_code ← read_own_data_field o.asset_code
    asset_issuer ← read_own_data_field o.asset_issuer
    memo ← read_own_data_field o.memo
    if not (is_data o.metadata)
        then none
        else typed_payload (record {
          wallet_id = wallet_id;
          amount = amount;
          recipient_id = recipient_id;
          asset_code = asset_code;
          asset_issuer = asset_issuer;
          memo = memo;
          metadata = none;
        })

  unfoldable pub snapshot_payment_payload :
      RawPayload N M → Option (PaymentPrepPayload N (Option M))
  unfolding snapshot_object
  snapshot_payment_payload primitive = none
  snapshot_payment_payload exotic = none
  snapshot_payment_payload (plain o) = snapshot_object o

-- `===`; an object is never the same as a value of a snapshot.
unfoldable pub same_field : {N : Type 0} → JsNumber N → Field N → Field N → Bool
same_field js absent absent = true
same_field js null null = true
same_field js (text s) (text t) = text_eq s t
same_field js (number x) (number y) = js.same x y
same_field js _ _ = false

-- A property that is not there is defined as `undefined`, which throws on an object that takes no
-- new properties.
unfoldable pub define_missing : {A : Type 0} → Bool → A → Slot A → Bool × Slot A
define_missing is_extensible undefined unset =
    if is_extensible then (true, value undefined) else (false, unset)
define_missing is_extensible undefined slot = (true, slot)

module _ {N : Type 0} (js : JsNumber N) where
  -- One round of the loop over the fields.
  unfoldable pub matches : Field N → Option (Field N) → Bool
  unfolding same_field
  matches authorized none = false
  matches authorized (some f) = same_field js f authorized

  unfoldable pub bind_slot : Bool → Field N → Slot (Field N) → Bool × Slot (Field N)
  unfolding matches read_own_data_field define_missing
  bind_slot is_extensible authorized slot =
      if not (matches authorized (read_own_data_field slot))
      then (false, slot)
      else define_missing is_extensible absent slot

-- The next step on the object, unless one before it failed.
abbrev pub and_then : {O : Type 0} → Bool × O → (O → Bool × O) → Bool × O
and_then (false, o) next = (false, o)
and_then (true, o) next = next o

-- The names of the fields that are bound.
pub data FieldName : Type 0 where
  named_wallet_id named_amount named_recipient_id : FieldName
  named_asset_code named_asset_issuer named_memo : FieldName

abbrev pub field_names : List FieldName
field_names =
    named_wallet_id ∷ named_amount ∷ named_recipient_id ∷ named_asset_code ∷ named_asset_issuer
    ∷ named_memo ∷ []

module _ {N M : Type 0} where
  -- `authorized[fieldName]`
  abbrev pub field_of : FieldName → PaymentPrepPayload N (Option M) → Field N
  field_of named_wallet_id p = p.wallet_id
  field_of named_amount p = p.amount
  field_of named_recipient_id p = p.recipient_id
  field_of named_asset_code p = p.asset_code
  field_of named_asset_issuer p = p.asset_issuer
  field_of named_memo p = p.memo

  abbrev pub slot_of : FieldName → PayloadObject N M → Slot (Field N)
  slot_of named_wallet_id o = o.wallet_id
  slot_of named_amount o = o.amount
  slot_of named_recipient_id o = o.recipient_id
  slot_of named_asset_code o = o.asset_code
  slot_of named_asset_issuer o = o.asset_issuer
  slot_of named_memo o = o.memo

  abbrev pub with_slot : FieldName → Slot (Field N) → PayloadObject N M → PayloadObject N M
  with_slot named_wallet_id s o = record o { wallet_id = s }
  with_slot named_amount s o = record o { amount = s }
  with_slot named_recipient_id s o = record o { recipient_id = s }
  with_slot named_asset_code s o = record o { asset_code = s }
  with_slot named_asset_issuer s o = record o { asset_issuer = s }
  with_slot named_memo s o = record o { memo = s }

  unfoldable pub freeze : PayloadObject N M → Bool × PayloadObject N M
  freeze o = (true, record o { is_extensible = false; is_frozen = true })

  -- The metadata is shadowed as well, whatever it holds.
  unfoldable pub shadow_metadata : PayloadObject N M → Bool × PayloadObject N M
  unfolding define_missing
  shadow_metadata o =
      let (done, s) = define_missing o.is_extensible none o.metadata in
      (done, record o { metadata = s })

module _ {N M : Type 0} (js : JsNumber N) where
  unfoldable pub bind_field :
      PaymentPrepPayload N (Option M) → FieldName → PayloadObject N M → Bool × PayloadObject N M
  unfolding bind_slot
  bind_field authorized name o =
      let (done, s) = bind_slot js o.is_extensible (field_of name authorized) (slot_of name o) in
      (done, with_slot name s o)

  -- `for (const fieldName of fields)`
  unfoldable pub bind_fields :
      PaymentPrepPayload N (Option M)
      → List FieldName
      → PayloadObject N M
      → Bool × PayloadObject N M
  unfolding bind_field
  bind_fields authorized [] o = (true, o)
  bind_fields authorized (name ∷ names) o =
      and_then (bind_field authorized name o) (bind_fields authorized names)

  -- The object is not null here, since its snapshot was taken.
  unfoldable pub bind_authorized_payment_payload :
      PayloadObject N M → PaymentPrepPayload N (Option M) → Bool × PayloadObject N M
  unfolding bind_fields shadow_metadata freeze
  bind_authorized_payment_payload original authorized =
      and_then (bind_fields authorized field_names original)
        (λ o. and_then (shadow_metadata o) freeze)
