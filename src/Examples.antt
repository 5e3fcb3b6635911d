-- ===== src/Examples.antt =====
-- The components run on concrete inputs.
mod Turn
mod Budgets
mod Loops
mod Replay
mod Permissions
mod Writes
mod Deliveries
mod Intake
mod Requests
mod Contexts
mod Delegations
mod Leases
mod Usage
mod Jobs
mod Surfaces
mod Artifacts
