-- ===== src/Tasks.antt =====
-- src/tasks: the claims that fence task identifiers, and the runner of tasks.
pub mod ClaimStore
pub mod Runner
pub mod Reconciliation
