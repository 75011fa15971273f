-- ===== src/Policies.antt =====
-- src/policies: authorization of tool calls.
pub mod ToolPolicy
pub mod ToolApproval
pub mod ApprovalPolicy
pub mod PaymentIntent
