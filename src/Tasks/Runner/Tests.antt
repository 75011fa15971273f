-- ===== src/Tasks/Runner/Tests.antt =====
-- src/tasks/task-runner.ts over the in-memory claim store, with one task.
use agentlily_runtime.Common.{
  Text, lit, ◌↔◌, ◌≡◌, refl, ℕ, Bool, true, false, Option, none, some, List, [], ◌∷◌,
}
use agentlily_runtime.Context.{RuntimeContext}
use agentlily_runtime.Errors.{ok, foreign}
use agentlily_runtime.Tasks.ClaimStore.{Filled, filled, TaskClaimSnapshot}
use agentlily_runtime.Tasks.ClaimStore.InMemory.{
  Claims, in_memory_task_claim_store, holds, copies, IsSound, in_memory-ClaimLaws,
}
use agentlily_runtime.Tasks.Runner.{
  RuntimeTask, World, Settlement, resolved, timed_out, run, take_claim, settle, after_failure,
}
use agentlily_runtime.Tasks.Reconciliation.{RawDecision, Authority, parse_reconciliation_decision}
use agentlily_runtime.Tasks.Reconciliation.Laws.{Proven, parse_reconciliation_decision_iff}
use agentlily_runtime.Tasks.Runner.Branches.{Ended, run-Ended}
use agentlily_runtime.Tasks.Reconciliation.Outcomes.{Reconciliation}
use agentlily_runtime.Tasks.Runner.Interleaving.{System, put}
use agentlily_runtime.Tasks.Runner.Races.{duplicate_blocks_release}

abbrev task : RuntimeTask ℕ
task = record {
  task_id = lit "t";
  agent_id = lit "a";
  tool_name = lit "echo";
  input = lit "i";
  payload = 7;
}

abbrev context : RuntimeContext
context = record {
  runtime_id = lit "r";
  task_id = lit "t";
  agent = some (record { agent_id = some (lit "a"); id = none });
  now = lit "n";
}

abbrev now_n : Filled
now_n = filled b'n' []

abbrev id_c : Filled
id_c = filled b'c' []

abbrev snapshot : TaskClaimSnapshot
snapshot = record { task_id = lit "t"; claimed_at = lit "n"; claim_id = lit "c" }

abbrev claimed : Claims
claimed = (lit "t", snapshot) ∷ []

abbrev idle : World Claims
idle = record { store = []; active = []; unknown = [] }

-- The task's tool runs, under its claim.
abbrev busy_world : World Claims
busy_world = record { store = claimed; active = lit "t" ∷ []; unknown = [] }

-- Its outcome is unknown, and its tool has settled.
abbrev stuck : World Claims
stuck = record { store = claimed; active = []; unknown = lit "t" ∷ [] }

abbrev opening : System Claims
opening = record { world = idle; running = λ u. false; saving = λ u. false; doubtful = λ u. false }

abbrev started_system : System Claims
started_system = record opening { world = busy_world; running = put (lit "t") (λ u. false) }

abbrev ended : Settlement ℕ
ended = resolved 8

run-Ended_example :
    Ended in_memory_task_claim_store holds copies IsSound in_memory-ClaimLaws task context ended
      (ok tt)
      idle
      (run in_memory_task_claim_store task context now_n id_c ended (ok tt) idle)
run-Ended_example =
    run-Ended in_memory_task_claim_store holds copies IsSound in_memory-ClaimLaws task context ended
      (ok tt) now_n id_c idle (tt, tt)

-- A digest of 64 hex digits.
abbrev digest : Text
digest = lit "0123456789abcdef0123456789abcdef0123456789abcdef0123456789abcdef"

abbrev proof : RawDecision
proof = record {
  confirmed_not_applied = some true;
  confirmed_quiescent = some true;
  authority_reference = some (lit "ref");
  evidence_sha256 = some digest;
}

abbrev authority : Authority
authority claim = ok (some proof)

parse_reconciliation_decision_iff_example :
    (parse_reconciliation_decision (some proof)
      ≡ some (record { authority_reference = lit "ref"; evidence_sha256 = digest }))
    ↔ Proven proof (record { authority_reference = lit "ref"; evidence_sha256 = digest })
parse_reconciliation_decision_iff_example =
    parse_reconciliation_decision_iff proof
      (record { authority_reference = lit "ref"; evidence_sha256 = digest })

duplicate_blocks_release_example :
    holds
      (after_failure in_memory_task_claim_store {R = ℕ}
        (lit "t")
        foreign
        (settle in_memory_task_claim_store
          (lit "t")
          (take_claim in_memory_task_claim_store
            (lit "t")
            (filled b'm' [])
            (filled b'd' [])
            busy_world).1).1).1.store
      (lit "t")
    ≡ true
unfolding agentlily_runtime.Common.Dict.has agentlily_runtime.Tasks.ClaimStore.InMemory.claim
    agentlily_runtime.Common.text_eq
duplicate_blocks_release_example =
    duplicate_blocks_release in_memory_task_claim_store holds copies IsSound in_memory-ClaimLaws ℕ
      (lit "t") (filled b'm' []) (filled b'd' []) foreign busy_world claimed
      ((refl, tt), (refl, tt)) refl
