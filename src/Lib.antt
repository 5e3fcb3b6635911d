-- ===== src/Lib.antt =====
-- A verification library for the digital-employee runtime: the engine that executes one governed
-- turn of a position (packages/engine), and the guards of packages/core that admit work and writes.
--
-- The parts and how they interact. executeTurn (packages/engine/src/turn-executor.ts) first checks
-- the permissions of the position (org-permissions.ts), then assembles the context, settles or asks
-- for approvals (approval.ts), and then runs a bounded validate/repair loop around the model. The
-- loop is stopped by the deadline, by the token budget of the turn, by the position budget and its
-- ledger (budget.ts) or by the doom-loop detector (doom-loop.ts); a stop is escalated along the
-- reporting line (escalation.ts) and put on record in the evidence sink. A delegation (delegation.ts)
-- runs one child turn of a direct report in what both positions may read and use. A runner claims a nonce
-- once (packages/core/src/runner-replay-guard.ts), a task waits for its owner at the intake gate
-- (task-intake-approval.ts), and a write passes from its preview over an approval to its execution
-- (write-approval.ts, write-approval-engine.ts). The attempts of a runner and the outbox of its
-- events and receipts are kept in a store (runner-durable-store.ts), and it works only under a
-- lease (runner-lease.ts). What a run used is evidence (runner-usage-evidence.ts). The
-- jobs of a host are bounded and queued by a JobRunner (job-runner.ts).
--
-- Which file models which part:
--   Common and below: Boolean tests, lists, JavaScript's Map (Dict), thrown errors (Result), prefixes,
--     untyped values (Value) and strings (Text).
--   Engine/Budget, Engine/DoomLoop, Engine/Escalation, Engine/Approval: the file of that name.
--     BudgetUsage, DoomLoopDetector and the ledger are records and a Dict that the operations take
--     and return; a validator returns a Result.
--   Engine/Turn: executeTurn from the assembled context to its end. The generator is a program over
--     explicit effects (Program): the list of what it yields and asks of its ports, and an outcome
--     that goes on, has returned, or has thrown. World holds the ports, the clock and the runtime's
--     parsers as functions that may answer anything, a rejected promise being `none`. Stops has the
--     writers of the sinks and stopWithEscalation, Gate the context cap and the approval gate, Loop
--     the iteration, Execute the whole with its handler.
--   Engine/Delegation: delegation.ts. Envelope parses what was received, Admission holds the history and
--     what may follow it, Scopes the effective scope, Routes the route in the applied artifacts, Run
--     the generator of executeDelegation with its child as a list of callbacks and a result, Tasks
--     the record of a requested task.
--   Engine/Requests: validateTurnRequest of contracts.ts, on untyped fields.
--   Engine/Freshness, Engine/Assembler: context-freshness.ts and context-assembler.ts. The assembler
--     works on the UTF-8 bytes of its texts.
--   Org/Paths, Org/Permissions, Org/PreCheck: normalizeContextPath, the evaluation of the scopes and
--     the gate, and the pre-check stage at the head of executeTurn.
--   Org/Artifact: the validator of the permissions artifact, in org-permissions.ts.
--   Org/Surface: intersectEffectiveSurface of packages/core/src/effective-surface.ts.
--   Runner/ReplayGuard: InMemoryRunnerReplayGuard; Shape parses a claim.
--   Runner/Outbox, Runner/Attempts: the in-memory outbox of runner-durable-store.ts, and its claims and
--     attempts.
--   Runner/Intake: TaskIntakeGate of packages/core/src/task-intake-approval.ts and its validators. Final
--     has the operations as a sequence.
--   Runner/Lease: RunnerLeaseState of packages/core/src/runner-lease.ts; Spec has what a lease promises.
--     The clock's readings are inputs, and acceptRenewal is two operations around its verification.
--   Runner/Evidence: packages/core/src/runner-usage-evidence.ts. Validate parses, Normalize makes the
--     evidence of an attempt one record; times count from the year 0.
--   Runner/Jobs: JobRunner of packages/core/src/job-runner.ts, whose calls, ends of jobs, timeouts and
--     close are a sequence of operations.
--   WriteApproval: WriteApprovalEngine. `execute` awaits its executor, so it is two operations,
--     begin_execute and finish_execute, between which any others may run.
--   Examples: the results applied to concrete inputs.
--
-- Bounds and fuel. The loop of executeTurn is recursion on the iterations left, maxIterations of
-- them; all else is structural recursion. `decimal` recurses as often as its number, which has no
-- more digits than that. Numbers are naturals: the counters of the source are safe integers that
-- only grow, and what it rejects (negative, fractional) is a separate value in Value.
--
-- Not modelled: the recall of memory and context before the assembly, the digest of the assembly,
-- message texts, run ids and timestamps of events, the transport and the storage of the runner,
-- packages, hosts and adapters, which are input and output. SHA-256, Date.parse, JSON.parse, schema
-- validation and base64url are parameters. Three inputs lie outside the types: a date before 1970 has
-- no number of milliseconds here, an integer from 2^53 on is no number, also where delegation.ts asks
-- only for an integer, and the two dates of a lease's identity are compared as times, where the source
-- compares their texts.
pub mod Common
pub mod Engine
pub mod Runner
pub mod Org
pub mod WriteApproval
mod Examples
