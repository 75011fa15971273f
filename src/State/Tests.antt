-- ===== src/State/Tests.antt =====
-- src/state/runtime-state.ts on small stores.
use agentlily_runtime.Common.{
  Text, lit, ◌≡◌, refl, ℕ, Option, none, some, List, [], ◌∷◌, true, false, arith,
}
use agentlily_runtime.Common.Value.{nat}
use agentlily_runtime.State.{RuntimeStateStore, init, put, get_value}
use agentlily_runtime.State.Bounds.{Call, puts, run, IsValid, run-IsValid_state}
use agentlily_runtime.State.Lookup.{put_fifo, get_value-put}

abbrev fresh : RuntimeStateStore ℕ
fresh = record { store = []; max_entries = 2 }

abbrev calls : List (Call ℕ)
calls = puts (lit "a") 1 ∷ puts (lit "b") 2 ∷ []

abbrev full : RuntimeStateStore ℕ
full = record { store = (lit "a", 1) ∷ (lit "b", 2) ∷ []; max_entries = 2 }

run-IsValid_state_example : IsValid (run calls fresh)
unfolding init
run-IsValid_state_example = run-IsValid_state (some (nat 2)) calls fresh refl

put_fifo_example : (put (lit "c") 3 full).store ≡ (lit "b", 2) ∷ (lit "c", 3) ∷ []
unfolding put agentlily_runtime.State.has_key agentlily_runtime.Common.Dict.has
    agentlily_runtime.Common.text_eq
put_fifo_example =
    put_fifo (lit "c") (lit "a") 3 1 ((lit "b", 2) ∷ []) full (omega arith, refl, omega arith) refl

get_value-put_example : get_value (lit "a") (put (lit "c") 3 full) ≡ none
unfolding init run put agentlily_runtime.Common.Dict.has agentlily_runtime.Common.Dict.set
    agentlily_runtime.Common.text_eq agentlily_runtime.State.has_key
get_value-put_example =
    get_value-put (lit "c") (lit "a") 3 full (run-IsValid_state (some (nat 2)) calls fresh refl)
