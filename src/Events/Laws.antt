-- ===== src/Events/Laws.antt =====
-- RuntimeEventBus of src/events/runtime-events.ts: the sets of listeners over any history of calls.
use agentlily_runtime.Common.{
  ℕ, zero, suc, Bool, true, false, ◌&&◌, ◌||◌, not, List, [], ◌∷◌, ◌++◌, Option, none, some, Text,
  leb, ◌==◌, length, get_or, Bool-cases, inl, inr,
}
use agentlily_runtime.Common.Dict.{get, get-set}
use agentlily_runtime.Events.{
  init, Listener, Bus, listeners_of, has_id, delete_id, wrapper_of, with_listeners, on, once,
  off_wrapper, off_set, off, clear,
}
use agentlily_runtime.Common.Value.{Number, nat, not_nat}
use agentlily_runtime.Errors.{ok}
use mathlib.Core.Path.{◌≡◌, refl}
use native.Mathlib.Omega.{arith}

pub data Call : Type 0 where
  on_call : Text → Listener → Call
  once_call : Text → (wrapper listener : ℕ) → Call
  off_call : Text → ℕ → Call
  clear_call : Call

unfoldable pub after : Call → Bus → Bus
unfolding on once off clear
after (on_call name l) bus = (on name l bus).1
after (once_call name wrapper listener) bus = (once name wrapper listener bus).1
after (off_call name id) bus = (off name id bus).1
after clear_call bus = clear bus

unfoldable pub after_all : List Call → Bus → Bus
unfolding after
after_all [] bus = bus
after_all (c ∷ cs) bus = after_all cs (after c bus)

unfoldable pub distinct : List Listener → Bool
unfolding has_id
distinct [] = true
distinct (l ∷ ls) = not (has_id l.id ls) && distinct ls

-- At most `max` listeners, and no function twice.
unfoldable pub is_set : ℕ → List Listener → Bool
unfolding distinct
is_set max ls = leb (length ls) max && distinct ls

abbrev pub IsBounded : Bus → Type 0
IsBounded bus = (name : Text) → is_set bus.max_listeners (listeners_of name bus) ≡ true

is_set-empty : (max : ℕ) → is_set max [] ≡ true
unfolding is_set distinct
is_set-empty max = ground (arith)

has_id-append :
    (id : ℕ) (l : Listener) (ls : List Listener)
    → has_id id (ls ++ l ∷ []) ≡ has_id id ls || l.id == id
unfolding has_id
has_id-append id l [] = ground (arith)
has_id-append id l (x ∷ ls) = ground (arith, has_id-append id l ls)

length_append : (l : Listener) (ls : List Listener) → length (ls ++ l ∷ []) ≡ suc (length ls)
length_append l [] = refl
length_append l (x ∷ ls) = ground (arith, length_append l ls)

distinct_append :
    (l : Listener) (ls : List Listener)
    → distinct ls ≡ true
    → has_id l.id ls ≡ false
    → distinct (ls ++ l ∷ []) ≡ true
unfolding distinct has_id
distinct_append l [] d h = refl
distinct_append l (x ∷ ls) d h = ground (arith, distinct_append l ls, has_id-append x.id l ls)

is_set_append :
    (max : ℕ) (l : Listener) (ls : List Listener)
    → is_set max ls ≡ true
    → has_id l.id ls ≡ false
    → leb max (length ls) ≡ false
    → is_set max (ls ++ l ∷ []) ≡ true
unfolding is_set
is_set_append max l ls s h f = ground (arith, distinct_append l ls, length_append l ls)

length-delete_id : (id : ℕ) (ls : List Listener) → leb (length (delete_id id ls)) (length ls) ≡ true
unfolding delete_id
length-delete_id id [] = ground (arith)
length-delete_id id (x ∷ ls) = ground (arith, length-delete_id id ls)

has_id-delete_id :
    (id j : ℕ) (ls : List Listener) → has_id j ls ≡ false → has_id j (delete_id id ls) ≡ false
unfolding delete_id has_id
has_id-delete_id id j [] h = refl
has_id-delete_id id j (x ∷ ls) h = ground (arith, has_id-delete_id id j ls)

distinct-delete_id :
    (id : ℕ) (ls : List Listener) → distinct ls ≡ true → distinct (delete_id id ls) ≡ true
unfolding delete_id distinct
distinct-delete_id id [] d = refl
distinct-delete_id id (x ∷ ls) d =
    ground (arith, distinct-delete_id id ls, has_id-delete_id id x.id ls)

is_set-delete_id :
    (max id : ℕ) (ls : List Listener) → is_set max ls ≡ true → is_set max (delete_id id ls) ≡ true
unfolding is_set
is_set-delete_id max id ls s = ground (arith, distinct-delete_id id ls, length-delete_id id ls)

with_listeners-IsBounded :
    (name : Text) (ls : List Listener) (bus : Bus)
    → is_set bus.max_listeners ls ≡ true
    → IsBounded bus
    → IsBounded (with_listeners name ls bus)
unfolding with_listeners
with_listeners-IsBounded name ls bus s b other =
    ground (arith, get-set name other ls bus.listeners, b other)

made-IsBounded :
    (name : Text) (bus : Bus)
    → IsBounded bus
    → IsBounded (with_listeners name (listeners_of name bus) bus)
made-IsBounded name bus b = with_listeners-IsBounded name (listeners_of name bus) bus (b name) b

on-IsBounded :
    (name : Text) (l : Listener) (bus : Bus) → IsBounded bus → IsBounded (on name l bus).1
unfolding on
on-IsBounded name l bus b other =
    let max = bus.max_listeners in
    let ls = listeners_of name bus in
    elim (Bool-cases (has_id l.id ls)) [
      | inl h ↦ rw h (made-IsBounded name bus b other)
      | inr h ↦ elim (Bool-cases (leb max (length ls))) [
        | inl f ↦ rw h (rw f (made-IsBounded name bus b other))
        | inr f ↦ rw h (
            rw f (
              with_listeners-IsBounded name (ls ++ l ∷ []) bus (is_set_append max l ls (b name) h f)
                b other))
      ]
    ]

off_wrapper-IsBounded :
    (name : Text) (ls : List Listener) (found : Option ℕ) (bus : Bus)
    → is_set bus.max_listeners ls ≡ true
    → IsBounded bus
    → IsBounded (off_wrapper name ls found bus).1
unfolding off_wrapper
off_wrapper-IsBounded name ls none bus s b = b
off_wrapper-IsBounded name ls (some x) bus s b =
    with_listeners-IsBounded name (delete_id x ls) bus (is_set-delete_id bus.max_listeners x ls s) b

off_set-IsBounded :
    (name : Text) (id : ℕ) (found : Option (List Listener)) (bus : Bus)
    → is_set bus.max_listeners (get_or found []) ≡ true
    → IsBounded bus
    → IsBounded (off_set name id found bus).1
unfolding off_set
off_set-IsBounded name id none bus s b other = b other
off_set-IsBounded name id (some ls) bus s b other = elim (Bool-cases (has_id id ls)) [
  | inl h ↦ rw h (
      with_listeners-IsBounded name (delete_id id ls) bus
        (is_set-delete_id bus.max_listeners id ls s) b other)
  | inr h ↦ rw h (off_wrapper-IsBounded name ls (wrapper_of id ls) bus s b other)
]

off-IsBounded : (name : Text) (id : ℕ) (bus : Bus) → IsBounded bus → IsBounded (off name id bus).1
unfolding off
off-IsBounded name id bus b = off_set-IsBounded name id (get name bus.listeners) bus (b name) b

after-IsBounded : (c : Call) (bus : Bus) → IsBounded bus → IsBounded (after c bus)
unfolding after once clear get
after-IsBounded (on_call name l) bus b = on-IsBounded name l bus b
after-IsBounded (once_call name wrapper listener) bus b = on-IsBounded name _ bus b
after-IsBounded (off_call name id) bus b = off-IsBounded name id bus b
after-IsBounded clear_call bus b = λ name. is_set-empty bus.max_listeners

all-IsBounded : (cs : List Call) (bus : Bus) → IsBounded bus → IsBounded (after_all cs bus)
unfolding after_all
all-IsBounded [] bus b = b
all-IsBounded (c ∷ cs) bus b = all-IsBounded cs (after c bus) (after-IsBounded c bus b)

init-IsBounded :
    (max : Option Number) (has_observer : Bool) (bus : Bus)
    → init max has_observer ≡ ok bus
    → IsBounded bus
unfolding init get is_set
init-IsBounded none has_observer bus e name = ground (arith)
init-IsBounded (some (nat zero)) has_observer bus e name = cc
init-IsBounded (some (nat (suc n))) has_observer bus e name = ground (arith)
init-IsBounded (some not_nat) has_observer bus e name = cc

-- Whatever calls of on, once, off and clear are made on a new bus, in any order and also when some
-- of them throw: the listeners of every event are at most as many as the limit, and no function is
-- among them twice.
pub after_all-IsBounded :
    (max : Option Number) (has_observer : Bool) (bus : Bus) (cs : List Call)
    → init max has_observer ≡ ok bus
    → IsBounded (after_all cs bus)
after_all-IsBounded max has_observer bus cs e =
    all-IsBounded cs bus (init-IsBounded max has_observer bus e)
