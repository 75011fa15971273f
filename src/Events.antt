-- ===== src/Events.antt =====
-- src/events/runtime-events.ts: `RuntimeEventBus`. A listener is the identity of a function, and for
-- a wrapper of `once` that of the function wrapped. What a listener and the observer of errors do is
-- arbitrary: each acts on the bus and on a world `W`, and may throw. Promises that reject are handled
-- when they do, by the same `handle_listener_error`.
mod Laws
mod Removal
mod Delivery
mod Tests
use agentlily_runtime.Common.{
  ℕ, zero, suc, ◌+◌, Bool, true, false, ◌&&◌, ◌||◌, not, List, [], ◌∷◌, ◌++◌, Option, none, some,
  Text, lit, leb, ◌==◌, length, text_eq, if◌then◌else◌, get_or,
}
use agentlily_runtime.Common.Dict.{get, set, has}
use agentlily_runtime.Effects.{Action}
use agentlily_runtime.Errors.{Result, ok, err, foreign, range_error}
use agentlily_runtime.Common.Value.{Number, nat, not_nat}

pub record Listener : Type 0 where
  pub id : ℕ
  pub original : Option ℕ

pub record Bus : Type 0 where
  pub listeners : List (Text × List Listener)
  pub max_listeners : ℕ
  pub has_observer : Bool
  pub is_emitting_internal_error : Bool
  pub is_notifying_listener_error_observer : Bool

-- Whether an observer is given, and the limit: 100 unless the options say.
unfoldable pub init : Option Number → Bool → Result Bus
init max_listeners has_observer = elim (get_or max_listeners (nat 100)) [
  | nat zero ↦ err range_error
  | nat (suc n) ↦ ok (record {
    listeners = [];
    max_listeners = suc n;
    has_observer = has_observer;
    is_emitting_internal_error = false;
    is_notifying_listener_error_observer = false;
  })
  | not_nat ↦ err range_error
]

abbrev pub internal_error : Text
internal_error = lit "runtime.internal.error"

-- The listeners of a name; `[]` also where the map has no set.
abbrev pub listeners_of : Text → Bus → List Listener
listeners_of name bus = get_or (get name bus.listeners) []

unfoldable pub has_id : ℕ → List Listener → Bool
has_id id [] = false
has_id id (l ∷ ls) = l.id == id || has_id id ls

unfoldable pub delete_id : ℕ → List Listener → List Listener
delete_id id [] = []
delete_id id (l ∷ ls) = if l.id == id then ls else l ∷ delete_id id ls

abbrev pub is_original : ℕ → Option ℕ → Bool
is_original id none = false
is_original id (some o) = o == id

-- The identity of the first wrapper of a function.
unfoldable pub wrapper_of : ℕ → List Listener → Option ℕ
wrapper_of id [] = none
wrapper_of id (l ∷ ls) = if is_original id l.original then some l.id else wrapper_of id ls

unfoldable pub with_listeners : Text → List Listener → Bus → Bus
with_listeners name ls bus = record bus { listeners = set name ls bus.listeners }

-- `on`, for a listener or a wrapper. The limit throws its own error; the set is made before.
unfoldable pub on : Text → Listener → Action Bus (Unit {0})
unfolding has_id with_listeners
on name l bus =
    let ls = listeners_of name bus in
    let made = with_listeners name ls bus in
    if has_id l.id ls
    then (ok tt, made)
    else (if leb bus.max_listeners (length ls)
        then (err foreign, made)
        else (ok tt, with_listeners name (ls ++ l ∷ []) bus))

-- `once`, with the identity of its new wrapper.
unfoldable pub once : Text → (wrapper listener : ℕ) → Action Bus (Unit {0})
unfolding on
once name wrapper listener = on name (record { id = wrapper; original = some listener })

unfoldable pub off_wrapper : Text → List Listener → Option ℕ → Bus → Bool × Bus
unfolding delete_id with_listeners
off_wrapper name ls none bus = (false, bus)
off_wrapper name ls (some wrapper) bus = (true, with_listeners name (delete_id wrapper ls) bus)

unfoldable pub off_set : Text → ℕ → Option (List Listener) → Bus → Bool × Bus
unfolding has_id delete_id wrapper_of off_wrapper with_listeners
off_set name id none bus = (false, bus)
off_set name id (some ls) bus =
    if has_id id ls
    then (true, with_listeners name (delete_id id ls) bus)
    else off_wrapper name ls (wrapper_of id ls) bus

unfoldable pub off : Text → ℕ → Bus → Bool × Bus
unfolding off_set
off name id bus = off_set name id (get name bus.listeners) bus

unfoldable pub total : List (Text × List Listener) → ℕ
total [] = 0
total ((name, ls) ∷ rest) = length ls + total rest

unfoldable pub listener_count : Option Text → Bus → ℕ
unfolding total
listener_count none bus = total bus.listeners
listener_count (some name) bus = length (listeners_of name bus)

unfoldable pub clear : Bus → Bus
clear bus = record bus { listeners = [] }

-- The bus, the world, and the calls of listeners so far, each with the name of its event.
pub record State (W : Type 0) : Type 0 where
  pub bus : Bus
  pub world : W
  pub calls : List (Text × ℕ)

module _ {W : Type 0} (call : ℕ → Text → Action (Bus × W) (Unit {0}))
    (observe : Action (Bus × W) (Unit {0})) where
  -- A callback on the bus and the world.
  abbrev pub run_on : Action (Bus × W) (Unit {0}) → Action (State W) (Unit {0})
  run_on action s =
      let (result, (bus, world)) = action (s.bus, s.world) in
      (result, record s { bus = bus; world = world })

  -- What an invocation of a listener runs: a wrapper takes itself off first.
  unfoldable pub invoke_as : Text → ℕ → Option ℕ → Action (State W) (Unit {0})
  unfolding off
  invoke_as name id none s = run_on (call id name) (record s { calls = s.calls ++ (name, id) ∷ [] })
  invoke_as name id (some original) s =
      run_on (call original name)
        (record s { bus = (off name id s.bus).1; calls = s.calls ++ (name, id) ∷ [] })

  unfoldable pub invoke : Text → Listener → Action (State W) (Unit {0})
  unfolding invoke_as
  invoke name l = invoke_as name l.id l.original

  -- `notifyListenerErrorObserver`: what the observer throws is contained.
  unfoldable pub notify_listener_error_observer : State W → State W
  notify_listener_error_observer s =
      let marked = record s {
        bus = record s.bus { is_notifying_listener_error_observer = true };
      } in
      let (result, after) = run_on observe marked in
      if not s.bus.has_observer || s.bus.is_notifying_listener_error_observer
      then s
      else record after { bus = record after.bus { is_notifying_listener_error_observer = false } }

  abbrev pub handled : (State W → State W) → Result (Unit {0}) × State W → State W
  handled handle (ok _, s) = s
  handled handle (err e, s) = handle s

  -- The loop of `emit` over its snapshot, with the handler of a listener that throws.
  unfoldable pub dispatch : (State W → State W) → Text → List Listener → State W → State W
  unfolding has_id invoke
  dispatch handle name [] s = s
  dispatch handle name (l ∷ ls) s =
      dispatch handle name ls
        (if has_id l.id (listeners_of name s.bus) then handled handle (invoke name l s) else s)

  -- `emit` of the internal error: a failure of its own listeners goes to the observer alone.
  unfoldable pub emit_internal_error : State W → State W
  unfolding dispatch notify_listener_error_observer
  emit_internal_error s =
      dispatch notify_listener_error_observer internal_error (listeners_of internal_error s.bus) s

  unfoldable pub handle_listener_error : Text → State W → State W
  unfolding notify_listener_error_observer emit_internal_error
  handle_listener_error name s =
      let told = notify_listener_error_observer s in
      let emitted =
        emit_internal_error
          (record told { bus = record told.bus { is_emitting_internal_error = true } }) in
      if text_eq name internal_error || told.bus.is_emitting_internal_error
      then told
      else record emitted { bus = record emitted.bus { is_emitting_internal_error = false } }

  -- `emit` returns whatever its listeners do.
  unfoldable pub emit : Text → State W → State W
  unfolding dispatch handle_listener_error
  emit name s = dispatch (handle_listener_error name) name (listeners_of name s.bus) s
