-- ===== src/Policies/PaymentIntent/Payload/Binding.antt =====
-- What a payload object is after it was bound to a snapshot.
use agentlily_runtime.Common.{
  ◌≡◌, ◌∙◌, ◌≢◌, refl, not, List, [], ◌∷◌, if◌then◌else◌, sym, ap, subst, inl, inr, Bool, true,
  false, Option, Bool-cases,
}
use agentlily_runtime.Actions.PaymentPrep.Amount.{JsNumber}
use agentlily_runtime.Actions.PaymentPrep.{Field, absent, PaymentPrepPayload}
use agentlily_runtime.Policies.PaymentIntent.Payload.{
  Slot, unset, accessor, value, PayloadObject, same_field, bind_slot, define_missing, matches,
  read_own_data_field, and_then, freeze, shadow_metadata, FieldName, named_wallet_id, named_amount,
  named_recipient_id, named_asset_code, named_asset_issuer, named_memo, field_names, field_of,
  slot_of, with_slot, bind_field, bind_fields, bind_authorized_payment_payload,
}

-- What `payload.field` gives: an own value, or else what the prototype or the getter gives.
unfoldable pub look_up : {A : Type 0} → A → Slot A → A
look_up inherited (value a) = a
look_up inherited _ = inherited

-- The payload as the tool reads it. `inherited` is what every lookup finds that finds no own value.
unfoldable pub seen_by_tool :
    {N M : Type 0}
    → PaymentPrepPayload N (Option M)
    → PayloadObject N M
    → PaymentPrepPayload N (Option M)
unfolding look_up
seen_by_tool inherited o = record {
  wallet_id = look_up inherited.wallet_id o.wallet_id;
  amount = look_up inherited.amount o.amount;
  recipient_id = look_up inherited.recipient_id o.recipient_id;
  asset_code = look_up inherited.asset_code o.asset_code;
  asset_issuer = look_up inherited.asset_issuer o.asset_issuer;
  memo = look_up inherited.memo o.memo;
  metadata = look_up inherited.metadata o.metadata;
}

-- An own value that is the same as the authorized one.
abbrev pub IsBound : {N : Type 0} → JsNumber N → Field N → Slot (Field N) → Type 0
IsBound {N} js authorized slot =
    (f : Field N) × (slot ≡ value f) × (same_field js f authorized ≡ true)

-- After every other field's round a slot is as before.
with_slot-other :
    {N M : Type 0} (n m : FieldName) (s : Slot (Field N)) (o : PayloadObject N M)
    → n ≢ m
    → slot_of n (with_slot m s o) ≡ slot_of n o
with_slot-other named_wallet_id named_wallet_id s o ne = absurd (ne refl)
with_slot-other named_amount named_amount s o ne = absurd (ne refl)
with_slot-other named_recipient_id named_recipient_id s o ne = absurd (ne refl)
with_slot-other named_asset_code named_asset_code s o ne = absurd (ne refl)
with_slot-other named_asset_issuer named_asset_issuer s o ne = absurd (ne refl)
with_slot-other named_memo named_memo s o ne = absurd (ne refl)
with_slot-other _ _ s o ne = refl

slot_of-with_slot :
    {N M : Type 0} (n : FieldName) (s : Slot (Field N)) (o : PayloadObject N M)
    → slot_of n (with_slot n s o) ≡ s
slot_of-with_slot named_wallet_id s o = refl
slot_of-with_slot _ s o = refl

FieldName-discrete : Discrete FieldName
FieldName-discrete = hlevel

and_then-ok :
    {O : Type 0} (r : Bool × O) (next : O → Bool × O) (o : O)
    → and_then r next ≡ (true, o)
    → (o' : O) × (r ≡ (true, o')) × (next o' ≡ (true, o))
and_then-ok (true, o') next o e = (o', refl, e)
and_then-ok (false, o') next o e = cc

bind_slot-IsBound :
    {N : Type 0} (js : JsNumber N) (ext : Bool) (a : Field N) (slot s : Slot (Field N))
    → bind_slot js ext a slot ≡ (true, s)
    → IsBound js a s
unfolding bind_slot matches read_own_data_field define_missing
bind_slot-IsBound {N} js ext a unset s e = go ext (same_field js absent a) refl e
  where
    go :
        (ext same : Bool)
        → same_field js absent a ≡ same
        → ◌≡◌ {A = Bool × Slot (Field N)}
            (if not same
              then (false, unset)
              else (if ext then (true, value absent) else (false, unset)))
            (true, s)
        → IsBound js a s
    go true true known e = (absent, sym (ap (λ (p : Bool × Slot (Field N)). p.1) e), known)
    go false true known e = cc
    go ext false known e = cc
bind_slot-IsBound {N} js ext a (value f) s e = go (same_field js f a) refl e
  where
    go :
        (same : Bool)
        → same_field js f a ≡ same
        → ◌≡◌ {A = Bool × Slot (Field N)}
            (if not same then (false, value f) else (true, value f))
            (true, s)
        → IsBound js a s
    go true known e = (f, sym (ap (λ (p : Bool × Slot (Field N)). p.1) e), known)
    go false known e = cc
bind_slot-IsBound {N} js ext a accessor s e = cc

bind_slot-value :
    {N : Type 0} (js : JsNumber N) (ext : Bool) (a f : Field N)
    → (bind_slot js ext a (value f)).1 ≡ value f
unfolding bind_slot matches read_own_data_field define_missing
bind_slot-value js ext a f = elim (Bool-cases (same_field js f a)) [
  | inl same ↦ rw same refl
  | inr different ↦ rw different refl
]

-- A round keeps every value that is there.
bind_field-keeps :
    {N M : Type 0} (js : JsNumber N) (a : PaymentPrepPayload N (Option M)) (n m : FieldName)
    (f : Field N) (o o' : PayloadObject N M)
    → bind_field js a m o ≡ (true, o')
    → slot_of n o ≡ value f
    → slot_of n o' ≡ value f
unfolding bind_field
bind_field-keeps {N} {M} js a n m f o o' e h =
    let next : with_slot m (bind_slot js o.is_extensible (field_of m a) (slot_of m o)).1 o ≡ o' =
      ap (λ (p : Bool × PayloadObject N M). p.1) e in
    rw (← next) (elim (FieldName-discrete n m) [
      | yes same ↦
          rw (← same)
            (slot_of-with_slot n _ o ∙ rw h (bind_slot-value js o.is_extensible (field_of n a) f))
      | no different ↦ with_slot-other n m _ o different ∙ h
    ])

bind_field-IsBound :
    {N M : Type 0} (js : JsNumber N) (a : PaymentPrepPayload N (Option M)) (m : FieldName)
    (o o' : PayloadObject N M)
    → bind_field js a m o ≡ (true, o')
    → IsBound js (field_of m a) (slot_of m o')
unfolding bind_field
bind_field-IsBound {N} {M} js a m o o' e =
    let s = (bind_slot js o.is_extensible (field_of m a) (slot_of m o)).1 in
    let next : with_slot m s o ≡ o' = ap (λ (p : Bool × PayloadObject N M). p.1) e in
    let done : (bind_slot js o.is_extensible (field_of m a) (slot_of m o)).0 ≡ true =
      ap (λ (p : Bool × PayloadObject N M). p.0) e in
    rw (← next, slot_of-with_slot m s o)
      (bind_slot-IsBound js o.is_extensible (field_of m a) (slot_of m o) s (λ i. (done i, s)))

abbrev AllBound :
    {N M : Type 0}
    → JsNumber N
    → PaymentPrepPayload N (Option M)
    → PayloadObject N M
    → List FieldName
    → Type 0
AllBound js a o [] = Unit
AllBound js a o (n ∷ names) = IsBound js (field_of n a) (slot_of n o) × AllBound js a o names

bind_fields-keeps :
    {N M : Type 0} (js : JsNumber N) (a : PaymentPrepPayload N (Option M)) (names : List FieldName)
    (n : FieldName) (f : Field N) (o o' : PayloadObject N M)
    → bind_fields js a names o ≡ (true, o')
    → slot_of n o ≡ value f
    → slot_of n o' ≡ value f
unfolding bind_fields
bind_fields-keeps {N} {M} js a [] n f o o' e h =
    subst (λ x. slot_of n x ≡ value f) (ap (λ (p : Bool × PayloadObject N M). p.1) e) h
bind_fields-keeps js a (m ∷ names) n f o o' e h =
    let (o1, first, rest) = and_then-ok (bind_field js a m o) (bind_fields js a names) o' e in
    bind_fields-keeps js a names n f o1 o' rest (bind_field-keeps js a n m f o o1 first h)

bind_fields-AllBound :
    {N M : Type 0} (js : JsNumber N) (a : PaymentPrepPayload N (Option M)) (names : List FieldName)
    (o o' : PayloadObject N M)
    → bind_fields js a names o ≡ (true, o')
    → AllBound js a o' names
unfolding bind_fields
bind_fields-AllBound js a [] o o' e = tt
bind_fields-AllBound js a (m ∷ names) o o' e =
    let (o1, first, rest) = and_then-ok (bind_field js a m o) (bind_fields js a names) o' e in
    let (f, there, same) = bind_field-IsBound js a m o o1 first in
    (
      (f, bind_fields-keeps js a names m f o1 o' rest there, same),
      bind_fields-AllBound js a names o1 o' rest,
    )

pub record Bound {N M : Type 0} (js : JsNumber N) (authorized : PaymentPrepPayload N (Option M))
    (o : PayloadObject N M) : Type 0 where
  pub wallet : IsBound js authorized.wallet_id o.wallet_id
  pub amount : IsBound js authorized.amount o.amount
  pub recipient : IsBound js authorized.recipient_id o.recipient_id
  pub code : IsBound js authorized.asset_code o.asset_code
  pub issuer : IsBound js authorized.asset_issuer o.asset_issuer
  pub memo : IsBound js authorized.memo o.memo
  pub frozen : o.is_frozen ≡ true

pub bind-Bound :
    {N M : Type 0} (js : JsNumber N) (original : PayloadObject N M)
    (a : PaymentPrepPayload N (Option M)) (o : PayloadObject N M)
    → bind_authorized_payment_payload js original a ≡ (true, o)
    → Bound js a o
unfolding bind_authorized_payment_payload freeze shadow_metadata
bind-Bound {N} {M} js original a o e =
    let (o1, first, rest) = and_then-ok (bind_fields js a field_names original) _ o e in
    let (o2, second, last) = and_then-ok (shadow_metadata o1) freeze o rest in
    let bound = bind_fields-AllBound js a field_names original o1 first in
    let shadowed = ap (λ (p : Bool × PayloadObject N M). p.1) second in
    let frozen = ap (λ (p : Bool × PayloadObject N M). p.1) last in
    subst (Bound js a) frozen (
      rw (← shadowed) (record {
        wallet = bound.0;
        amount = bound.1.0;
        recipient = bound.1.1.0;
        code = bound.1.1.1.0;
        issuer = bound.1.1.1.1.0;
        memo = bound.1.1.1.1.1.0;
        frozen = refl;
      }))
