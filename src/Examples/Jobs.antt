-- ===== src/Examples/Jobs.antt =====
-- The job runner at a concrete sequence of operations.
use digital_employee.Common.Dict.{delete}
use digital_employee.Common.Dict.{get}
use digital_employee.Common.Dict.{set}
use digital_employee.Common.Text.{trim}
use digital_employee.Common.Text.{trim_end}
use digital_employee.Common.Text.{trim_start}
use digital_employee.Common.Value.{member}
use digital_employee.Common.{if_some}
use digital_employee.Runner.Jobs.Invariant.{step}
use digital_employee.Runner.Jobs.{add_actor}
use digital_employee.Runner.Jobs.{admit}
use digital_employee.Runner.Jobs.{close}
use digital_employee.Runner.Jobs.{delete_actor}
use digital_employee.Runner.Jobs.{delete_actors}
use digital_employee.Runner.Jobs.{drain}
use digital_employee.Runner.Jobs.{drain_queue}
use digital_employee.Runner.Jobs.{drop_oldest}
use digital_employee.Runner.Jobs.{enqueue}
use digital_employee.Runner.Jobs.{finish}
use digital_employee.Runner.Jobs.{is_duplicate}
use digital_employee.Runner.Jobs.{prune}
use digital_employee.Runner.Jobs.{prune_map}
use digital_employee.Runner.Jobs.{record_job}
use digital_employee.Runner.Jobs.{refusal}
use digital_employee.Runner.Jobs.{run_job}
use digital_employee.Runner.Jobs.{set_bounded}
use digital_employee.Runner.Jobs.{splice}
use digital_employee.Runner.Jobs.{start}
use digital_employee.Runner.Jobs.{time_out}
use digital_employee.Runner.Jobs.{trimmed}
use digital_employee.Runner.Jobs.{validate_identity}
use digital_employee.Common.{ℕ, String, List, [], ◌∷◌, ◌≡◌, refl}
use digital_employee.Common.Value.{Value, Fields}
use digital_employee.Runner.Jobs.{JobOptions, rejected, actor_busy, run}
use digital_employee.Runner.Jobs.Invariant.{
  JobOp, runs, finishes, times_out, steps, idle_runner, IsSound, steps-IsSound,
}

abbrev options : JobOptions
options = record {
  max_concurrent = 1;
  max_queue_size = 2;
  cooldown_ms = 10;
  dedupe_window_ms = 100;
  max_seen_jobs = 2;
  max_tracked_actors = 2;
}

abbrev job_of : String → Value
job_of actor = Value.obj (Fields.field "actorId" (Value.str actor) Fields.end)

abbrev clock : ℕ → ℕ
clock n = 1_000

-- One runs, two wait, one of them gives up, and the other starts when the first has finished.
abbrev operations : List JobOp
operations =
    runs clock 1 (job_of "a")
    ∷ runs clock 2 (job_of "b")
    ∷ runs clock 3 (job_of "c")
    ∷ times_out 2
    ∷ finishes clock "a"
    ∷ []

steps-IsSound_example : IsSound options (steps options operations (idle_runner options))
steps-IsSound_example = steps-IsSound options operations

last_started : (steps options operations (idle_runner options)).running_actors ≡ "c" ∷ []
unfolding steps step finish time_out if_some splice run validate_identity run_job refusal
    is_duplicate trimmed member prune get prune_map admit start delete set trim trim_end trim_start
    add_actor close delete_actor delete_actors drain drain_queue drop_oldest enqueue record_job
    set_bounded
last_started = refl

refused_twice :
    (run options clock 4 (job_of "c") (steps options operations (idle_runner options))).0
    ≡ rejected actor_busy
unfolding steps run step finish time_out if_some splice validate_identity run_job refusal
    is_duplicate trimmed member prune get prune_map admit start record_job delete set trim trim_end
    trim_start add_actor close delete_actor delete_actors drain drain_queue drop_oldest enqueue
    set_bounded
refused_twice = refl
