-- ===== src/Runner/Jobs.antt =====
-- packages/core/src/job-runner.ts: JobRunner, which bounds the jobs that run and wait, and admits one job
-- of an actor at a time. A task is left out: its start is what the runner does, and its end is an
-- operation. `clock n` is the n-th reading of the clock within an operation. An entry of the queue has
-- a ticket, by which its timer finds it. A task that calls the runner while it is started is not modelled.
pub mod Occupancy
pub mod Sound
pub mod Invariant
use digital_employee.Common.{
  ℕ, zero, suc, ◌+◌, ◌-◌, String, Bool, true, false, ◌&&◌, ◌||◌, not, Option, none, some, List, [],
  ◌∷◌, ◌++◌, map, leb, ltb, ◌==◌, str_eq, if◌then◌else◌, if_some, is_some, length, any,
}
use digital_employee.Common.Dict.{Dict, includes, get, set, delete}
use digital_employee.Common.Text.{trim, is_empty}
use digital_employee.Common.Value.{Value, Fields, member}
use digital_employee.Common.Result.{◌>>=◌, err, ok, Result}

pub data JobError : Type 0 where
  runner_closed validation_error duplicate_request actor_busy : JobError
  rate_limited : ℕ → JobError
  queue_full : JobError

pub record JobOptions : Type 0 where
  pub max_concurrent : ℕ
  pub max_queue_size : ℕ
  pub cooldown_ms : ℕ
  pub dedupe_window_ms : ℕ
  pub max_seen_jobs : ℕ
  pub max_tracked_actors : ℕ

pub record JobIdentity : Type 0 where
  pub actor_id : String
  pub job_id : Option String

pub record QueueEntry : Type 0 where
  pub identity : JobIdentity
  pub ticket : ℕ

pub record JobRunner : Type 0 where
  pub running : ℕ
  pub running_actors : List String
  pub queued_actors : List String
  pub queue : List QueueEntry
  pub seen_jobs : Dict ℕ
  pub last_started_by_actor : Dict ℕ
  pub closed : Bool

-- What a call of `run` comes to.
pub data Admission : Type 0 where
  rejected : JobError → Admission
  started enqueued : Admission

-- `positiveInteger` on an option, for which a default stands in.
unfoldable pub positive_integer : ℕ → ℕ → Value → Result JobError ℕ
positive_integer least default Value.undefined = ok default
positive_integer least default Value.null = ok default
positive_integer least default (Value.num n) = if ltb n least then err validation_error else ok n
positive_integer least default _ = err validation_error

-- The constructor's options.
unfoldable pub job_options : Fields → Result JobError JobOptions
job_options options = do
  max_concurrent ← positive_integer 1 2 (member "maxConcurrent" options)
  max_queue_size ← positive_integer 0 50 (member "maxQueueSize" options)
  queue_timeout_ms ← positive_integer 1 30_000 (member "queueTimeoutMs" options)
  cooldown_ms ← positive_integer 0 0 (member "cooldownMs" options)
  dedupe_window_ms ← positive_integer 0 300_000 (member "dedupeWindowMs" options)
  max_seen_jobs ← positive_integer 1 1_000 (member "maxSeenJobs" options)
  max_tracked_actors ← positive_integer 1 1_000 (member "maxTrackedActors" options)
  ok (record {
    max_concurrent = max_concurrent;
    max_queue_size = max_queue_size;
    cooldown_ms = cooldown_ms;
    dedupe_window_ms = dedupe_window_ms;
    max_seen_jobs = max_seen_jobs;
    max_tracked_actors = max_tracked_actors;
  })

-- `set.add(x)` and `set.delete(x)`
unfoldable pub add_actor : String → List String → List String
add_actor a xs = if includes xs a then xs else xs ++ a ∷ []

unfoldable pub delete_actor : String → List String → List String
delete_actor a [] = []
delete_actor a (x ∷ xs) = let rest = delete_actor a xs in if str_eq x a then rest else x ∷ rest

-- The oldest entries are dropped until the map fits.
unfoldable pub drop_oldest {ℓ} : {V : Type ℓ} → ℕ → Dict V → Dict V
drop_oldest maximum [] = []
drop_oldest maximum (e ∷ m) =
    let rest = drop_oldest maximum m in if ltb maximum (length (e ∷ m)) then rest else e ∷ m

unfoldable pub set_bounded : Dict ℕ → String → ℕ → ℕ → Dict ℕ
set_bounded m key value maximum = drop_oldest maximum (set key value (delete key m))

-- The entries younger than the window.
unfoldable pub prune_map : ℕ → ℕ → Dict ℕ → Dict ℕ
prune_map now window [] = []
prune_map now window ((k, at) ∷ m) =
    let rest = prune_map now window m in if leb (at + window) now then rest else (k, at) ∷ rest

-- A text that is not blank, trimmed.
unfoldable pub trimmed : Value → Option String
trimmed (Value.str s) = if is_empty (trim s) then none else some (trim s)
trimmed _ = none

unfoldable pub validate_identity : Value → Option JobIdentity
validate_identity (Value.obj candidate) = some (record {
  actor_id = if_some (trimmed (member "actorId" candidate)) (λ a. a) "anonymous";
  job_id = trimmed (member "jobId" candidate);
})
validate_identity _ = none

module _ (options : JobOptions) where
  unfoldable pub prune : ℕ → JobRunner → JobRunner
  prune now r = record r {
    seen_jobs = prune_map now options.dedupe_window_ms r.seen_jobs;
    last_started_by_actor = prune_map now options.cooldown_ms r.last_started_by_actor;
  }

  abbrev within : ℕ → ℕ → Option ℕ → Bool
  within now window at = ltb 0 window && if_some at (λ t. ltb now (t + window)) false

  unfoldable pub is_duplicate : ℕ → Option String → JobRunner → Bool
  is_duplicate now job_id r =
      if_some job_id (λ j. within now options.dedupe_window_ms (get j r.seen_jobs)) false

  -- The error of assertAccepted, if any.
  unfoldable pub refusal : ℕ → JobIdentity → JobRunner → Option JobError
  refusal now job r =
      if is_duplicate now job.job_id r
      then some duplicate_request
      else if includes r.running_actors job.actor_id || includes r.queued_actors job.actor_id
      then some actor_busy
      else if within now options.cooldown_ms (get job.actor_id r.last_started_by_actor)
      then if_some (get job.actor_id r.last_started_by_actor)
          (λ t. some (rate_limited ((t + options.cooldown_ms) - now))) none
      else none

  unfoldable pub record_job : ℕ → Option String → JobRunner → JobRunner
  record_job now job_id r =
      if_some job_id
        (λ j.
          if ltb 0 options.dedupe_window_ms
          then record r { seen_jobs = set_bounded r.seen_jobs j now options.max_seen_jobs }
          else r)
        r

  -- The synchronous part of #start.
  unfoldable pub start : ℕ → String → JobRunner → JobRunner
  start now actor r = record r {
    running = suc r.running;
    running_actors = add_actor actor r.running_actors;
    last_started_by_actor =
        if ltb 0 options.cooldown_ms
        then set_bounded r.last_started_by_actor actor now options.max_tracked_actors
        else r.last_started_by_actor;
  }

  unfoldable pub enqueue : ℕ → JobIdentity → JobRunner → JobRunner
  enqueue ticket job r = record r {
    queued_actors = add_actor job.actor_id r.queued_actors;
    queue = r.queue ++ record { identity = job; ticket = ticket } ∷ [];
  }

  -- What `run` does with an accepted job.
  unfoldable pub admit : (ℕ → ℕ) → ℕ → JobIdentity → JobRunner → Admission × JobRunner
  admit clock ticket job r =
      if ltb r.running options.max_concurrent
      then (started, start (clock 3) job.actor_id (record_job (clock 2) job.job_id r))
      else if leb options.max_queue_size (length r.queue)
      then (rejected queue_full, r)
      else (enqueued, enqueue ticket job (record_job (clock 2) job.job_id r))

  unfoldable pub run_job : (ℕ → ℕ) → ℕ → JobIdentity → JobRunner → Admission × JobRunner
  run_job clock ticket job r =
      if_some (refusal (clock 1) job (prune (clock 0) r)) (λ e. (rejected e, prune (clock 0) r))
        (admit clock ticket job (prune (clock 0) r))

  unfoldable pub run : (ℕ → ℕ) → ℕ → Value → JobRunner → Admission × JobRunner
  run clock ticket identity r =
      if r.closed
      then (rejected runner_closed, r)
      else if_some (validate_identity identity) (λ job. run_job clock ticket job r)
          (rejected validation_error, r)

  -- The loop of #drain, over the queue as it is: each turn starts its first entry.
  unfoldable pub drain_queue : (ℕ → ℕ) → ℕ → List QueueEntry → JobRunner → JobRunner
  drain_queue clock n [] r = record r { queue = [] }
  drain_queue clock n (e ∷ rest) r =
      let next = drain_queue clock (suc n) rest (
        start (clock n) e.identity.actor_id (record r {
          queue = rest;
          queued_actors = delete_actor e.identity.actor_id r.queued_actors;
        })) in
      if not r.closed && ltb r.running options.max_concurrent
      then next
      else record r { queue = e ∷ rest }

  unfoldable pub drain : (ℕ → ℕ) → JobRunner → JobRunner
  drain clock r = drain_queue clock 0 r.queue r

  -- The `finally` of #start, for a job that is running.
  unfoldable pub finish : (ℕ → ℕ) → String → JobRunner → JobRunner
  finish clock actor r =
      if includes r.running_actors actor
      then drain clock (record r {
        running = r.running - 1;
        running_actors = delete_actor actor r.running_actors;
      })
      else r

-- The entry of a ticket, taken out of the queue.
unfoldable pub splice : ℕ → List QueueEntry → Option (JobIdentity × List QueueEntry)
splice ticket [] = none
splice ticket (e ∷ queue) =
    let rest = splice ticket queue in
    if e.ticket == ticket
    then some (e.identity, queue)
    else if_some rest (λ found. some (found.0, e ∷ found.1)) none

-- The timer of a queued job.
unfoldable pub time_out : ℕ → JobRunner → JobRunner
time_out ticket r =
    if_some (splice ticket r.queue)
      (λ found. record r {
        queue = found.1;
        queued_actors = delete_actor found.0.actor_id r.queued_actors;
      })
      r

unfoldable pub delete_actors : List QueueEntry → List String → List String
delete_actors [] actors = actors
delete_actors (e ∷ queue) actors = delete_actors queue (delete_actor e.identity.actor_id actors)

unfoldable pub close : JobRunner → JobRunner
close r = if r.closed then r else record r {
  closed = true;
  queue = [];
  queued_actors = delete_actors r.queue r.queued_actors;
}
