-- ===== src/Actions.antt =====
-- src/actions: running a tool, and the tool that prepares a payment.
pub mod Executor
pub mod PaymentPrep
