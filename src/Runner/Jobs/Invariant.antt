-- ===== src/Runner/Jobs/Invariant.antt =====
-- The invariant of the job runner along any sequence of operations.
use digital_employee.Common.{
  ℕ, String, true, false, Option, none, some, List, [], ◌∷◌, leb, ltb, if_some, if_cases,
  if_some_cases, length, ◌≡◌, refl, arith,
}
use digital_employee.Common.Dict.{Dict, includes}
use digital_employee.Common.Value.{Value}
use digital_employee.Runner.Jobs.{
  JobOptions, JobIdentity, JobRunner, Admission, prune, refusal, record_job, start, enqueue, admit,
  run_job, run, finish, time_out, close, validate_identity, prune_map,
}
use digital_employee.Runner.Jobs.Occupancy.{occurrences, includes-occurrences}
use digital_employee.Runner.Jobs.Sound.{
  IsBounded, start-IsBounded, enqueue-IsBounded, is_busy, finish-IsBounded, finish-busy,
  time_out-IsBounded, time_out-busy, close-IsBounded, close-busy,
}

pub data JobOp : Type 0 where
  runs : (ℕ → ℕ) → ℕ → Value → JobOp
  finishes : (ℕ → ℕ) → String → JobOp
  times_out : ℕ → JobOp
  closes : JobOp

module _ (options : JobOptions) where
  unfoldable pub step : JobOp → JobRunner → JobRunner
  step (runs clock ticket identity) r = (run options clock ticket identity r).1
  step (finishes clock actor) r = finish options clock actor r
  step (times_out ticket) r = time_out ticket r
  step closes r = close r

  unfoldable pub steps : List JobOp → JobRunner → JobRunner
  steps [] r = r
  steps (op ∷ ops) r = steps ops (step op r)

  -- The bounds hold, no actor has two jobs, and nobody waits while there is room.
  pub record IsSound (r : JobRunner) : Type 0 where
    pub bounded : IsBounded options r
    pub busy : is_busy options r ≡ true

  refusal-none :
      (now : ℕ) (job : JobIdentity) (r : JobRunner)
      → refusal options now job r ≡ none
      → (includes r.running_actors job.actor_id ≡ false)
        × (includes r.queued_actors job.actor_id ≡ false)
  unfolding refusal
  refusal-none now job r h = (ground (arith, h), ground (arith, h))

  record_job-cases :
      (now : ℕ) (job_id : Option String) (r : JobRunner)
      → (m : Dict ℕ) × (record_job options now job_id r ≡ record r { seen_jobs = m })
  unfolding record_job if_some
  record_job-cases now none r = (r.seen_jobs, refl)
  record_job-cases now (some j) r =
      if_cases (λ (x : JobRunner). (m : Dict ℕ) × (x ≡ record r { seen_jobs = m }))
        (ltb 0 options.dedupe_window_ms) _ _ (λ k. (_, refl)) (λ k. (r.seen_jobs, refl))

  -- A change of the maps keeps the rest.
  other_maps :
      (m n : Dict ℕ) (r : JobRunner)
      → IsBounded options r
      → IsBounded options (record r { seen_jobs = m; last_started_by_actor = n })
  other_maps m n r v = record {
    few = v.few;
    short = v.short;
    counted = v.counted;
    agree = v.agree;
    once = v.once;
  }

  admit-IsSound :
      (clock : ℕ → ℕ) (ticket : ℕ) (job : JobIdentity) (r : JobRunner)
      → IsSound r
      → includes r.running_actors job.actor_id ≡ false
      → includes r.queued_actors job.actor_id ≡ false
      → IsSound (admit options clock ticket job r).1
  unfolding admit start enqueue
  admit-IsSound clock ticket job r v idle absent =
      let (m, e) = record_job-cases (clock 2) job.job_id r in
      let u : JobRunner = record r { seen_jobs = m } in
      let kept = other_maps m r.last_started_by_actor r v.bounded in
      rw e (
        if_cases (λ (x : Admission × JobRunner). IsSound x.1) (ltb r.running options.max_concurrent)
          _ _
          (λ k. record {
            bounded =
                start-IsBounded options (clock 3) job.actor_id u kept (grind (arith, k)) idle (
                  ground (
                    arith,
                    absent,
                    includes-occurrences job.actor_id r.queued_actors,
                    v.bounded.agree job.actor_id,
                  ));
            busy = ground (arith, v.busy, k);
          })
          (λ k.
            if_cases (λ (x : Admission × JobRunner). IsSound x.1)
              (leb options.max_queue_size (length r.queue)) _ _ (λ l. v)
              (λ l. record {
                bounded =
                    enqueue-IsBounded options ticket job u kept (grind (arith, l)) idle absent;
                busy = ground (arith, k);
              })))

  prune-IsSound : (now : ℕ) (r : JobRunner) → IsSound r → IsSound (prune options now r)
  unfolding prune
  prune-IsSound now r v = record {
    bounded =
        other_maps (prune_map now options.dedupe_window_ms r.seen_jobs)
          (prune_map now options.cooldown_ms r.last_started_by_actor) r v.bounded;
    busy = v.busy;
  }

  run-IsSound :
      (clock : ℕ → ℕ) (ticket : ℕ) (identity : Value) (r : JobRunner)
      → IsSound r
      → IsSound (run options clock ticket identity r).1
  unfolding run run_job
  run-IsSound clock ticket identity r v =
      let pruned = prune options (clock 0) r in
      let w : IsSound pruned = prune-IsSound (clock 0) r v in
      if_cases (λ (x : Admission × JobRunner). IsSound x.1) r.closed _ _ (λ k. v)
        (λ k.
          if_some_cases (λ (x : Admission × JobRunner). IsSound x.1) (validate_identity identity) _
            _
            (λ job i.
              if_some_cases (λ (x : Admission × JobRunner). IsSound x.1)
                (refusal options (clock 1) job pruned) _ _ (λ e f. w)
                (λ f.
                  let (idle, absent) = refusal-none (clock 1) job pruned f in
                  admit-IsSound clock ticket job pruned w idle absent))
            (λ i. v))

  step-IsSound : (op : JobOp) (r : JobRunner) → IsSound r → IsSound (step op r)
  unfolding step
  step-IsSound (runs clock ticket identity) r v = run-IsSound clock ticket identity r v
  step-IsSound (finishes clock actor) r v = record {
    bounded = finish-IsBounded options clock actor r v.bounded;
    busy = finish-busy options clock actor r v.busy;
  }
  step-IsSound (times_out ticket) r v = record {
    bounded = time_out-IsBounded options ticket r v.bounded;
    busy = time_out-busy options ticket r v.busy;
  }
  step-IsSound closes r v = record {
    bounded = close-IsBounded options r v.bounded;
    busy = close-busy options r v.busy;
  }

  -- A new runner.
  abbrev pub idle_runner : JobRunner
  idle_runner = record {
    running = 0;
    running_actors = [];
    queued_actors = [];
    queue = [];
    seen_jobs = [];
    last_started_by_actor = [];
    closed = false;
  }

  idle_runner-IsSound : IsSound idle_runner
  unfolding occurrences
  idle_runner-IsSound = record {
    bounded = record {
      few = omega arith;
      short = omega arith;
      counted = refl;
      agree = λ a. refl;
      once = λ a. omega arith;
    };
    busy = refl;
  }

  steps_kept : (ops : List JobOp) (r : JobRunner) → IsSound r → IsSound (steps ops r)
  unfolding steps
  steps_kept [] r v = v
  steps_kept (op ∷ ops) r v = steps_kept ops (step op r) (step-IsSound op r v)

  -- After any operations on a new runner no more jobs run than are allowed, the queue is within its
  -- size, the sets of actors are those of the jobs that run and wait, no actor has two jobs, and
  -- nobody waits while there is room, unless the runner is closed.
  pub steps-IsSound : (ops : List JobOp) → IsSound (steps ops idle_runner)
  steps-IsSound ops = steps_kept ops idle_runner idle_runner-IsSound
