-- ===== src/Engine.antt =====
-- packages/engine/src: the built-in execution engine.
pub mod Budget
pub mod DoomLoop
pub mod Escalation
pub mod Approval
pub mod Turn
pub mod Requests
pub mod Freshness
pub mod Assembler
pub mod Delegation
