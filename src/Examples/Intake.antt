-- ===== src/Examples/Intake.antt =====
-- One task under a policy that asks for an owner's approval.
use digital_employee.Common.{ℕ, String, ◌≡◌, refl, true, Option, none, some, List, [], ◌∷◌, if_some}
use digital_employee.Common.Dict.{get, set}
use digital_employee.Common.Value.{Value, field, end, member}
use digital_employee.Runner.Intake.{
  TaskIntakeGate, TaskIntakeRecord, TaskIntakeDecision, TaskIntakeRequest, TaskIntakePolicy,
  can_launch, new_gate, initial_record, settle_decision, submit, admit, admit_valid, decide,
  launches, expire_pending, expire_each, validate_task_intake_request, nonempty,
}
use digital_employee.Runner.Intake.Final.{
  Operation, submit_task, decide_task, expire_due, apply, apply_all, apply_all-final,
}
use digital_employee.Runner.Intake.Deadlines.{IsApproved, can_launch-IsApproved}

abbrev hash : String → String
hash text = text

abbrev at_noon : String → Option ℕ
at_noon text = some 43_200_000

abbrev iso : ℕ → String
iso time = "2026-01-01T00:00:00.000Z"

abbrev careful : TaskIntakePolicy
careful = record { require_owner_approval = true; timeout_ms = none }

abbrev request : TaskIntakeRequest
request = record {
  task_id = "t";
  lease_id = "l";
  lease_expires_at = "noon";
  employee_id = "e";
  runner_id = "r";
  requested_at = "now";
}

abbrev input : Value
input = Value.obj (
    field "taskId" (Value.str "t") (
      field "leaseId" (Value.str "l") (
        field "leaseExpiresAt" (Value.str "noon") (
          field "employeeId" (Value.str "e")
            (field "runnerId" (Value.str "r") (field "requestedAt" (Value.str "now") end))))))

abbrev yes_please : TaskIntakeDecision
yes_please = record { task_id = "t"; approved = true; decided_by = "owner"; reason = none }

abbrev ops : List Operation
ops =
    submit_task 0 0 input
    ∷ decide_task 7 7 yes_please
    ∷ expire_due 99_000_000 (λ id. 99_000_000)
    ∷ []

abbrev approved_task : TaskIntakeRecord
approved_task =
    settle_decision hash at_noon iso yes_please 7
      (initial_record hash at_noon iso careful request 0 43_200_000)

abbrev approved_gate : TaskIntakeGate
approved_gate = record { records = ("t", approved_task) ∷ []; events = []; policy = careful }

can_launch-IsApproved_example :
    IsApproved hash at_noon iso "t" (apply_all hash at_noon iso ops (new_gate careful))
unfolding apply_all apply submit admit_valid admit decide can_launch launches get set member
    validate_task_intake_request nonempty if_some expire_pending expire_each initial_record
    settle_decision
can_launch-IsApproved_example = can_launch-IsApproved hash at_noon iso ops careful "t" refl refl

apply_all-final_example :
    get "t" (apply_all hash at_noon iso ops approved_gate).records ≡ some approved_task
unfolding get settle_decision
apply_all-final_example =
    apply_all-final hash at_noon iso ops approved_gate "t" approved_task refl refl
