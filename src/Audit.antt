-- ===== src/Audit.antt =====
-- src/audit: the ledger of runtime events, a chain of digests in a file of lines.
pub mod CanonicalJson
pub mod Schema
pub mod Normal
pub mod Verifier
pub mod Accepted
pub mod Tamper
pub mod Ledger
