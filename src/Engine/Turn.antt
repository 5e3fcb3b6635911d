-- ===== src/Engine/Turn.antt =====
-- packages/engine/src/turn-executor.ts: executeTurn as a program over explicit effects. What the
-- generator yields and what it asks of its ports is the list of effects, oldest first.
pub mod Events
pub mod Program
pub mod World
pub mod Stops
pub mod Gate
pub mod Loop
pub mod Execute
pub mod Settled
pub mod Documented
pub mod Calls
