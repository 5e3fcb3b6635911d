-- ===== src/Runner/Jobs/Sound.antt =====
-- What every operation of the job runner keeps.
use digital_employee.Common.{
  ℕ, suc, ◌+◌, ◌-◌, String, Bool, true, false, ◌&&◌, ◌||◌, not, List, [], ◌∷◌, leb, ltb, eq_iff,
  if_cases, if_some_cases, length, ◌≡◌, refl, ◌∙◌, ◌≤◌, ◌<◌, arith, eq_refl, length-append,
}
use digital_employee.Common.Dict.{includes}
use digital_employee.Runner.Jobs.{
  JobOptions, JobIdentity, QueueEntry, JobRunner, delete_actor, splice, start, enqueue, drain_queue,
  drain, finish, time_out, close,
}
use digital_employee.Runner.Jobs.Occupancy.{
  occurrences, actors, includes-occurrences, occurrences-delete, length-delete, occurrences-add,
  length-add, occurrences-enqueue, occurrences-delete_all, splice-IsTaken,
}

-- The bounds hold, the sets of actors say who runs and who waits, and no actor does so twice.
pub record IsBounded (options : JobOptions) (r : JobRunner) : Type 0 where
  pub few : r.running ≤ options.max_concurrent
  pub short : length r.queue ≤ options.max_queue_size
  pub counted : length r.running_actors ≡ r.running
  pub agree :
      (a : String) → ltb 0 (occurrences a r.queued_actors) ≡ ltb 0 (occurrences a (actors r.queue))
  pub once : (a : String) → occurrences a r.running_actors + occurrences a (actors r.queue) ≤ 1

module _ (options : JobOptions) where
  pub start-IsBounded :
      (now : ℕ) (actor : String) (r : JobRunner)
      → IsBounded options r
      → r.running < options.max_concurrent
      → includes r.running_actors actor ≡ false
      → occurrences actor (actors r.queue) ≡ 0
      → IsBounded options (start options now actor r)
  unfolding start
  start-IsBounded now actor r v room idle absent = record {
    few = omega (arith, room);
    short = v.short;
    counted = length-add actor r.running_actors idle ∙ omega (arith, v.counted);
    agree = v.agree;
    once = λ a. ground (
      arith,
      occurrences-add a actor r.running_actors idle,
      v.once a,
      includes-occurrences a r.running_actors,
      idle,
      absent,
      eq_iff actor a,
    );
  }

  pub enqueue-IsBounded :
      (ticket : ℕ) (job : JobIdentity) (r : JobRunner)
      → IsBounded options r
      → length r.queue < options.max_queue_size
      → includes r.running_actors job.actor_id ≡ false
      → includes r.queued_actors job.actor_id ≡ false
      → IsBounded options (enqueue options ticket job r)
  unfolding enqueue
  enqueue-IsBounded ticket job r v room idle absent =
      let e : QueueEntry = record { identity = job; ticket = ticket } in
      record {
        few = v.few;
        short = omega (arith, length-append r.queue (e ∷ []), room);
        counted = v.counted;
        agree = λ a. ground (
          arith,
          occurrences-add a job.actor_id r.queued_actors absent,
          occurrences-enqueue a e r.queue,
          v.agree a,
        );
        once = λ a. ground (
          arith,
          occurrences-enqueue a e r.queue,
          v.once a,
          v.agree a,
          includes-occurrences a r.running_actors,
          includes-occurrences a r.queued_actors,
          idle,
          absent,
          eq_iff job.actor_id a,
        );
      }

  dequeue-IsBounded :
      (e : QueueEntry) (rest : List QueueEntry) (r : JobRunner)
      → IsBounded options (record r { queue = e ∷ rest })
      → IsBounded options (record r {
        queue = rest;
        queued_actors = delete_actor e.identity.actor_id r.queued_actors;
      })
  unfolding occurrences
  dequeue-IsBounded e rest r v = record {
    few = v.few;
    short = omega (arith, v.short);
    counted = v.counted;
    agree = λ a. ground (
      arith,
      occurrences-delete a e.identity.actor_id r.queued_actors,
      v.agree a,
      v.once a,
      eq_iff e.identity.actor_id a,
    );
    once = λ a. ground (arith, v.once a);
  }

  -- The actor of the first entry neither runs nor waits again.
  first_alone :
      (e : QueueEntry) (rest : List QueueEntry) (r : JobRunner)
      → IsBounded options (record r { queue = e ∷ rest })
      → (includes r.running_actors e.identity.actor_id ≡ false)
        × (occurrences e.identity.actor_id (actors rest) ≡ 0)
  unfolding occurrences
  first_alone e rest r v =
      let a = e.identity.actor_id in
      (
        ground (arith, v.once a, includes-occurrences a r.running_actors, eq_refl a),
        ground (arith, v.once a, eq_refl a),
      )

  drain_queue-IsBounded :
      (clock : ℕ → ℕ) (n : ℕ) (queue : List QueueEntry) (r : JobRunner)
      → IsBounded options (record r { queue = queue })
      → IsBounded options (drain_queue options clock n queue r)
  unfolding drain_queue start
  drain_queue-IsBounded clock n [] r v = v
  drain_queue-IsBounded clock n (e ∷ rest) r v =
      if_cases (IsBounded options) (not r.closed && ltb r.running options.max_concurrent) _ _
        (λ k.
          let (idle, alone) = first_alone e rest r v in
          let waiting : JobRunner = record r {
            queue = rest;
            queued_actors = delete_actor e.identity.actor_id r.queued_actors;
          } in
          drain_queue-IsBounded clock (suc n) rest
            (start options (clock n) e.identity.actor_id waiting)
            (start-IsBounded (clock n) e.identity.actor_id waiting (dequeue-IsBounded e rest r v)
              (grind (arith, k)) idle alone))
        (λ k. v)

  -- Nobody waits while there is room, unless the runner is closed.
  abbrev pub is_busy : JobRunner → Bool
  is_busy r = r.closed || leb (length r.queue) 0 || leb options.max_concurrent r.running

  drain_queue-busy :
      (clock : ℕ → ℕ) (n : ℕ) (queue : List QueueEntry) (r : JobRunner)
      → is_busy (drain_queue options clock n queue r) ≡ true
  unfolding drain_queue
  drain_queue-busy clock n [] r = ground arith
  drain_queue-busy clock n (e ∷ rest) r =
      if_cases (λ (x : JobRunner). is_busy x ≡ true)
        (not r.closed && ltb r.running options.max_concurrent) _ _
        (λ k. drain_queue-busy clock (suc n) rest _) (λ k. ground (arith, k))

  pub finish-IsBounded :
      (clock : ℕ → ℕ) (actor : String) (r : JobRunner)
      → IsBounded options r
      → IsBounded options (finish options clock actor r)
  unfolding finish drain
  finish-IsBounded clock actor r v =
      if_cases (IsBounded options) (includes r.running_actors actor) _ _
        (λ k.
          let ended : JobRunner = record r {
            running = r.running - 1;
            running_actors = delete_actor actor r.running_actors;
          } in
          drain_queue-IsBounded clock 0 r.queue ended (record {
            few = omega (arith, v.few);
            short = v.short;
            counted = ground (
              arith,
              k,
              v.counted,
              v.once actor,
              length-delete actor r.running_actors,
              includes-occurrences actor r.running_actors,
            );
            agree = v.agree;
            once = λ a. ground (arith, occurrences-delete a actor r.running_actors, v.once a);
          }))
        (λ k. v)

  pub finish-busy :
      (clock : ℕ → ℕ) (actor : String) (r : JobRunner)
      → is_busy r ≡ true
      → is_busy (finish options clock actor r) ≡ true
  unfolding finish drain
  finish-busy clock actor r b =
      if_cases (λ (x : JobRunner). is_busy x ≡ true) (includes r.running_actors actor) _ _
        (λ k. drain_queue-busy clock 0 r.queue _) (λ k. b)

  pub time_out-IsBounded :
      (ticket : ℕ) (r : JobRunner) → IsBounded options r → IsBounded options (time_out ticket r)
  unfolding time_out
  time_out-IsBounded ticket r v =
      if_some_cases (IsBounded options) (splice ticket r.queue) _ r
        (λ (found : JobIdentity × List QueueEntry) s. record {
          few = v.few;
          short = omega (arith, v.short, (splice-IsTaken "" ticket r.queue found s).1);
          counted = v.counted;
          agree = λ a. ground (
            arith,
            occurrences-delete a found.0.actor_id r.queued_actors,
            (splice-IsTaken a ticket r.queue found s).0,
            v.agree a,
            v.once a,
          );
          once = λ a. ground (arith, (splice-IsTaken a ticket r.queue found s).0, v.once a);
        })
        (λ s. v)

  pub time_out-busy :
      (ticket : ℕ) (r : JobRunner) → is_busy r ≡ true → is_busy (time_out ticket r) ≡ true
  unfolding time_out
  time_out-busy ticket r b =
      if_some_cases (λ (x : JobRunner). is_busy x ≡ true) (splice ticket r.queue) _ r
        (λ (found : JobIdentity × List QueueEntry) s.
          ground (arith, b, (splice-IsTaken "" ticket r.queue found s).1))
        (λ s. b)

  pub close-IsBounded : (r : JobRunner) → IsBounded options r → IsBounded options (close r)
  unfolding close occurrences
  close-IsBounded r v =
      if_cases (IsBounded options) r.closed _ _ (λ k. v)
        (λ k. record {
          few = v.few;
          short = omega arith;
          counted = v.counted;
          agree = λ a. ground (arith, occurrences-delete_all a r.queue r.queued_actors, v.agree a);
          once = λ a. ground (arith, v.once a);
        })

  pub close-busy : (r : JobRunner) → is_busy r ≡ true → is_busy (close r) ≡ true
  unfolding close
  close-busy r b = if_cases (λ (x : JobRunner). is_busy x ≡ true) r.closed _ _ (λ k. b) (λ k. refl)
