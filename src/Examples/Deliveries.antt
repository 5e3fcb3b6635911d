-- ===== src/Examples/Deliveries.antt =====
-- The outbox and the attempts of one task.
use digital_employee.Common.{ℕ, ◌≤◌, ◌<◌, String, refl, arith, none, some, [], ◌∷◌}
use digital_employee.Common.Dict.{get, set}
use digital_employee.Common.Text.{concat}
use digital_employee.Runner.Outbox.{Outbox, NewEntry, event, empty_outbox, numbered}
use digital_employee.Runner.Outbox.Order.{add, apply, apply-IsWellFormed, IsWellFormed}
use digital_employee.Runner.Attempts.{
  RunnerAttemptState, claimed, claim_nonce, AttemptUpdate, Attempts, attempt_key, any_attempt,
}
use digital_employee.Runner.Attempts.Fencing.{claim_nonce-not_behind}

abbrev message : NewEntry
message = record {
  kind = event;
  task_id = "t";
  fencing_token = 1;
  payload = "e30";
  next_retry_at = none;
}

empty-IsWellFormed : IsWellFormed empty_outbox
empty-IsWellFormed = record { ordered = tt; below_next = tt; bounded = omega arith; patient = tt }

apply-IsWellFormed_example : IsWellFormed (apply (add message) empty_outbox)
apply-IsWellFormed_example = apply-IsWellFormed (add message) empty_outbox empty-IsWellFormed

abbrev one : Outbox
one = record { entries = numbered 1 message ∷ []; next_sequence = 2 }

abbrev attempt : String → ℕ → RunnerAttemptState
attempt nonce token = record {
  task_id = "t";
  runner_id = "r";
  nonce = nonce;
  fencing_token = token;
  status = claimed;
  events_emitted = 0;
  receipt_digest = none;
}

abbrev two : Attempts
two = ("t::n1", attempt "n1" 1) ∷ ("t::n2", attempt "n2" 2) ∷ []

claim_nonce-not_behind_example : (0 < 2) × (2 ≤ 3)
unfolding claim_nonce attempt_key any_attempt get set concat
claim_nonce-not_behind_example =
    claim_nonce-not_behind (attempt "n3" 3) (attempt "n2" 2) two "t::n2" refl refl refl

abbrev nothing_new : AttemptUpdate
nothing_new = record { status = none; events_emitted = some 4; receipt_digest = none }
