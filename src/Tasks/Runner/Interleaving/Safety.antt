-- ===== src/Tasks/Runner/Interleaving/Safety.antt =====
-- No order of the steps lets a task be started whose outcome is open.
use agentlily_runtime.Common.{ℕ, Text, ◌≡◌, Bool, true, false, ◌&&◌, ◌||◌}
use agentlily_runtime.Common.Dict.{member}
use agentlily_runtime.Tasks.ClaimStore.{TaskClaimSnapshot, TaskClaimStore, ClaimLaws}
use agentlily_runtime.Tasks.Runner.Interleaving.{System, busy}

module _ {S : Type 0} (c : TaskClaimStore S) (holds : S → Text → Bool)
    (copies : S → TaskClaimSnapshot → ℕ) (IsSound : S → Type 0)
    (laws : ClaimLaws c holds copies IsSound) where
  -- What is busy is fenced and in one state only, and a tool that a run waits for is active.
  pub record Safe (s : System S) : Type 0 where
    pub sound : IsSound s.world.store
    pub active : (u : Text) → s.running u ≡ true → member u s.world.active ≡ true
    pub fenced : (u : Text) → busy s u ≡ true → holds s.world.store u ≡ true
    pub alone :
        (u : Text)
        → (s.running u && (s.saving u || s.doubtful u)) || (s.saving u && s.doubtful u) ≡ false
