-- ===== src/Runner.antt =====
-- packages/core/src: the admission of work by a runner.
pub mod ReplayGuard
pub mod Outbox
pub mod Attempts
pub mod Intake
pub mod Lease
pub mod Evidence
pub mod Jobs
