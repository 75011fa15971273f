-- ===== src/Lib.antt =====
-- A verification library for the agent runtime in src/: a TypeScript runtime that runs tasks of
-- agents by calling registered tools under policies and budgets, remembers their results, and fences
-- every task whose outcome it does not know, so that no side effect is repeated.
--
-- The parts and the files that model them:
--   Common, Errors, Effects   shared types and lemmas; src/errors/runtime-errors.ts. Text is a list of
--                             UTF-16 code units, a JavaScript Map an association list in insertion
--                             order (Common.Dict), a thrown error a value of `Result`; code that
--                             also changes a state is an `Action`, which keeps the state on a throw.
--   Guards, Context           src/guards/runtime-guards.ts, src/runtime/context.ts
--   Events                    src/events/runtime-events.ts: `RuntimeEventBus`, over callbacks that act on the
--                             bus and on a world of their own.
--   State                     src/state/runtime-state.ts (InMemoryRuntimeStateStore)
--   Agents                    src/agents/agent-instance-manager.ts
--   Tools                     src/tools/tool-registry.ts, src/tools/types.ts
--   Policies.ToolPolicy       src/policies/tool-policy.ts
--   Policies.ToolApproval     src/policies/tool-approval-policy.ts (InMemoryToolApprovalStore)
--   Policies.ApprovalPolicy   src/policies/tool-approval-policy.ts (ToolApprovalPolicy)
--   Actions.Executor          src/actions/action-executor.ts: `execute` asks the registry, then the
--                             policy, then the budget, and then runs the tool.
--   Actions.PaymentPrep       src/actions/payment-prep-action.ts: the tool, with the amounts (Amount), the
--                             base-32 decoder and checksum of an account (Account). Common.Decimal
--                             and Common.Encoding hold decimals, UTF-8 lengths and JSON strings.
--   Policies.PaymentIntent    src/policies/payment-intent-policy.ts: the rules of the wallets (Rules), the
--                             payload object that is snapshot, compared and frozen (Payload), and the
--                             decision. It runs the payment tool on the snapshot.
--   Audit                     src/audit: the canonical form of a value (CanonicalJson), the form and the
--                             check of a record (Schema), the verifier and the writer (Ledger). A file
--                             is its complete lines and what follows the last line break.
--   Memory                    src/memory/memory-store.ts: `select_memory_entries`, the in-memory store
--                             (Memory.InMemory) and the file store (Memory.JsonFile).
--   Tasks.ClaimStore          src/tasks/task-claim-store.ts: the interface and its promises, with the
--                             in-memory store (InMemory) and the file store (JsonFile).
--   Tasks.Runner              src/tasks/task-runner.ts, src/tasks/task-types.ts: `run`, over any claim store;
--                             Interleaving has the steps of one runner in any order.
--   Runtime                   src/runtime/agent-runtime.ts: the life of a runtime and the reservation of
--                             tasks, by what runs between two awaits; Runtime.Steps takes these
--                             steps in any order.
--   Tasks.Reconciliation      src/tasks/task-runner.ts (`reconcileUnknownOutcome`) and
--                             src/tasks/task-outcome-reconciliation.ts.
--
-- Operations have the names of the methods in snake case. A promise that always settles is its
-- value; what the platform or a callback decides is an argument: the time, fresh identities, the
-- cloning of a value, what each call of the file system answers, how a tool's promise settles, what a
-- policy or an authority answers. The files are what JSON.parse makes of them; a write makes a
-- temporary file and renames it, and each of its calls of the file system may fail. An operation that
-- holds the lock is one step. A time and an identity that the platform makes are not empty. Waiting
-- for a lock is its outcome only. All loops are structural but two, which run on fuel: the bytes that
-- leave the base-32 decoder, by its count of bits, and the digits of a printed number n, by n + 1.
-- Both are enough: the decoder is left with fewer than eight bits, and the number reads back.
--
-- A payload object has its own properties, and a flag for being frozen; SHA-256, JSON.parse and the
-- operations of JavaScript's numbers are parameters.
--
-- Not modelled: the wiring of these parts (src/runtime/bootstrap.ts), the durable approval
-- stores, the canonical form of a payload in the approval policy, and the subscription through which
-- a ledger receives its events from the event bus. Logging, model providers and the messages of
-- errors are left out as output.
pub mod Common
pub mod Errors
pub mod Effects
pub mod Events
pub mod Guards
pub mod State
pub mod Agents
pub mod Audit
pub mod Tools
pub mod Context
pub mod Policies
pub mod Actions
pub mod Memory
pub mod Tasks
pub mod Runtime
