-- ===== src/Engine/Delegation.antt =====
-- packages/engine/src/delegation.ts: one delegation from the owner of an organization to a direct
-- report.
pub mod Errors
pub mod Scopes
pub mod Identities
pub mod Admission
pub mod Canonical
pub mod Envelope
pub mod Routes
pub mod Run
pub mod Tasks
