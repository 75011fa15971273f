-- ===== src/Events/Delivery.antt =====
-- RuntimeEventBus.emit of src/events/runtime-events.ts: which listeners an emission calls, when the
-- callbacks leave the bus alone and may throw.
use agentlily_runtime.Common.{ℕ, List, [], ◌∷◌, Text, text_eq, if◌then◌else◌}
use agentlily_runtime.Effects.{Action}
use agentlily_runtime.Events.{Listener, Bus, State, listeners_of, run_on}
use mathlib.Core.Path.{◌≡◌}

unfoldable pub calls_of : Text → List (Text × ℕ) → List ℕ
calls_of name [] = []
calls_of name ((other, id) ∷ calls) =
    if text_eq other name then id ∷ calls_of name calls else calls_of name calls

unfoldable pub ids : List Listener → List ℕ
ids [] = []
ids (l ∷ ls) = l.id ∷ ids ls

module _ {W : Type 0} (call : ℕ → Text → Action (Bus × W) (Unit {0}))
    (observe : Action (Bus × W) (Unit {0}))
    (call_keeps : (id : ℕ) (name : Text) (bus : Bus) (w : W) → (call id name (bus, w)).1.0 ≡ bus)
    (observe_keeps : (bus : Bus) (w : W) → (observe (bus, w)).1.0 ≡ bus) where
  -- An event's listeners and its calls are as they were.
  record Kept (name : Text) (s t : State W) : Type 0 where
    same : listeners_of name t.bus ≡ listeners_of name s.bus
    heard : calls_of name t.calls ≡ calls_of name s.calls

  run_on-bus :
      (action : Action (Bus × W) (Unit {0})) (s : State W)
      → ((bus : Bus) (w : W) → (action (bus, w)).1.0 ≡ bus)
      → (run_on call observe action s).1.bus ≡ s.bus
  run_on-bus action s k = k s.bus s.world
