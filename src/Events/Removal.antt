-- ===== src/Events/Removal.antt =====
-- RuntimeEventBus.off of src/events/runtime-events.ts: the listeners of an event after a removal.
use agentlily_runtime.Common.{
  ℕ, Bool, true, false, ◌&&◌, List, [], ◌∷◌, Option, none, some, Text, ◌==◌, text_eq, get_or,
  Bool-cases, inl, inr,
}
use agentlily_runtime.Common.Dict.{get, get-set}
use agentlily_runtime.Events.{
  Listener, Bus, listeners_of, has_id, delete_id, wrapper_of, with_listeners, off_wrapper, off_set,
  off,
}
use mathlib.Core.Path.{◌≡◌, refl}
use native.Mathlib.Omega.{arith}

unfoldable pub all_in : List Listener → List Listener → Bool
unfolding has_id
all_in [] all = true
all_in (l ∷ ls) all = has_id l.id all && all_in ls all

all_in_more :
    (l : Listener) (ls all : List Listener) → all_in ls all ≡ true → all_in ls (l ∷ all) ≡ true
unfolding all_in has_id
all_in_more l [] all a = refl
all_in_more l (x ∷ ls) all a = ground (arith, all_in_more l ls all)

pub all_in_refl : (ls : List Listener) → all_in ls ls ≡ true
unfolding all_in has_id
all_in_refl [] = refl
all_in_refl (x ∷ ls) = ground (arith, all_in_refl ls, all_in_more x ls ls)

has_id-delete_id_other :
    (i j : ℕ) (ls : List Listener) → (i == j) ≡ false → has_id j (delete_id i ls) ≡ has_id j ls
unfolding has_id delete_id
has_id-delete_id_other i j [] n = refl
has_id-delete_id_other i j (x ∷ ls) n = ground (arith, has_id-delete_id_other i j ls n)

pub all_in-delete_id :
    (i : ℕ) (ls all : List Listener)
    → has_id i ls ≡ false
    → all_in ls all ≡ true
    → all_in ls (delete_id i all) ≡ true
unfolding all_in has_id
all_in-delete_id i [] all h a = refl
all_in-delete_id i (x ∷ ls) all h a =
    ground (arith, all_in-delete_id i ls all, has_id-delete_id_other i x.id all)

with_listeners_other :
    (name other : Text) (ls : List Listener) (bus : Bus)
    → text_eq other name ≡ false
    → listeners_of name (with_listeners other ls bus) ≡ listeners_of name bus
unfolding with_listeners
with_listeners_other name other ls bus t = ground (arith, get-set other name ls bus.listeners)

off_wrapper_other :
    (name other : Text) (ls : List Listener) (found : Option ℕ) (bus : Bus)
    → text_eq other name ≡ false
    → listeners_of name (off_wrapper other ls found bus).1 ≡ listeners_of name bus
unfolding off_wrapper
off_wrapper_other name other ls none bus t = refl
off_wrapper_other name other ls (some x) bus t =
    with_listeners_other name other (delete_id x ls) bus t

off_set_other :
    (name other : Text) (id : ℕ) (found : Option (List Listener)) (bus : Bus)
    → text_eq other name ≡ false
    → listeners_of name (off_set other id found bus).1 ≡ listeners_of name bus
unfolding off_set
off_set_other name other id none bus t = refl
off_set_other name other id (some ls) bus t = elim (Bool-cases (has_id id ls)) [
  | inl h ↦ rw h (with_listeners_other name other (delete_id id ls) bus t)
  | inr h ↦ rw h (off_wrapper_other name other ls (wrapper_of id ls) bus t)
]

pub off_other :
    (name other : Text) (id : ℕ) (bus : Bus)
    → text_eq other name ≡ false
    → listeners_of name (off other id bus).1 ≡ listeners_of name bus
unfolding off
off_other name other id bus t = off_set_other name other id (get other bus.listeners) bus t

off_own_of :
    (name : Text) (id : ℕ) (found : Option (List Listener)) (bus : Bus)
    → text_eq name name ≡ true
    → has_id id (get_or found []) ≡ true
    → listeners_of name (off_set name id found bus).1 ≡ delete_id id (get_or found [])
unfolding off_set with_listeners has_id
off_own_of name id none bus t h = cc
off_own_of name id (some ls) bus t h =
    rw h (ground (arith, get-set name name (delete_id id ls) bus.listeners))

pub off_own :
    (name : Text) (id : ℕ) (bus : Bus)
    → text_eq name name ≡ true
    → has_id id (listeners_of name bus) ≡ true
    → listeners_of name (off name id bus).1 ≡ delete_id id (listeners_of name bus)
unfolding off
off_own name id bus t h = off_own_of name id (get name bus.listeners) bus t h
