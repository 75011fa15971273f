-- ===== src/Events/Tests.antt =====
-- RuntimeEventBus at a concrete bus with a limit of two listeners.
use agentlily_runtime.Common.{true, false, List, [], ◌∷◌, none, some, lit, Text, ℕ}
use agentlily_runtime.Common.Dict.{get}
use agentlily_runtime.Common.Value.{nat}
use agentlily_runtime.Errors.{err, foreign, ok}
use agentlily_runtime.Effects.{Action}
use agentlily_runtime.Events.Delivery.{calls_of}
use agentlily_runtime.Events.{State, emit, init, Listener, Bus, listeners_of, listener_count}
use agentlily_runtime.Events.Laws.{
  Call, on_call, once_call, off_call, after_all, IsBounded, after_all-IsBounded,
}
use mathlib.Core.Path.{◌≡◌, refl}

abbrev empty_bus : Bus
empty_bus = record {
  listeners = [];
  max_listeners = 2;
  has_observer = true;
  is_emitting_internal_error = false;
  is_notifying_listener_error_observer = false;
}

abbrev started : Text
started = lit "runtime.started"

abbrev plain : ℕ → Listener
plain id = record { id = id; original = none }

abbrev calls : List Call
calls =
    on_call started (plain 1)
    ∷ once_call started 7 2
    ∷ on_call started (plain 3)
    ∷ on_call started (plain 1)
    ∷ []

made : init (some (nat 2)) true ≡ ok empty_bus
unfolding init
made = refl

third_is_refused :
    listeners_of started (after_all calls empty_bus)
    ≡ plain 1 ∷ record { id = 7; original = some 2 } ∷ []
unfolding after_all get agentlily_runtime.Common.Dict.set agentlily_runtime.Common.text_eq
third_is_refused = refl

off_by_the_wrapped :
    listener_count none (after_all (off_call started 2 ∷ []) (after_all calls empty_bus)) ≡ 1
unfolding after_all get listener_count agentlily_runtime.Common.Dict.set
    agentlily_runtime.Common.text_eq
off_by_the_wrapped = refl

after_all-IsBounded_example : IsBounded (after_all calls empty_bus)
after_all-IsBounded_example = after_all-IsBounded (some (nat 2)) true empty_bus calls made

abbrev throwing : ℕ → Text → Action (Bus × Unit {0}) (Unit {0})
throwing id name s = (err foreign, s)

abbrev complaining : Action (Bus × Unit {0}) (Unit {0})
complaining s = (err foreign, s)

abbrev crowded : State (Unit {0})
crowded = record { bus = after_all calls empty_bus; world = tt; calls = [] }

-- The wrapper of `once` is gone after its call.
once_is_gone : listener_count (some started) (emit throwing complaining started crowded).bus ≡ 1
unfolding emit after_all get listener_count agentlily_runtime.Common.Dict.set
    agentlily_runtime.Common.text_eq
once_is_gone = refl

seven_is_called : calls_of started (emit throwing complaining started crowded).calls ≡ 1 ∷ 7 ∷ []
unfolding emit after_all get calls_of agentlily_runtime.Common.Dict.set
    agentlily_runtime.Common.text_eq
seven_is_called = refl
