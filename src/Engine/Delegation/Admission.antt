-- ===== src/Engine/Delegation/Admission.antt =====
-- The history of delegations and the admission of one more.
pub mod Attempts
pub mod Chains
use digital_employee.Common.{
  ℕ, zero, suc, String, Bool, true, false, ◌&&◌, ◌||◌, not, Option, none, some, List, [], ◌∷◌, map,
  ltb, leb, ◌==◌, str_eq, if◌then◌else◌, if_some, length, all, any, sort_by, is_some,
}
use digital_employee.Common.Dict.{includes}
use digital_employee.Common.Result.{Result, ok, err, guard, ◌>>=◌, ◌>>◌}
use digital_employee.Common.Value.{Value, Fields, Items, member}
use digital_employee.Org.Permissions.{distinct}
use digital_employee.Runner.ReplayGuard.Shape.{count_fields}
use digital_employee.Engine.Delegation.Errors.{
  DelegationError, history_invalid, duplicate_identity, retry_invalid, second_child_denied,
}
use digital_employee.Engine.Delegation.Identities.{require_id}

pub record ExistingDelegationRef : Type 0 where
  pub task_id : String
  pub parent_turn_id : String
  pub child_turn_id : String
  pub attempt : ℕ
  pub retry_of_task_id : Option String

-- `entry.retryOfTaskId !== null` asks for an identifier.
unfoldable pub optional_id : Value → Result DelegationError (Option String)
optional_id Value.null = ok none
optional_id v = do id ← require_id v; ok (some id)

unfoldable pub attempt_of : Value → Result DelegationError ℕ
attempt_of (Value.num n) = if leb 1 n then ok n else err history_invalid
attempt_of _ = err history_invalid

-- An object of exactly the five fields; every failure is one error.
unfoldable pub parse_ref : Value → Result DelegationError ExistingDelegationRef
parse_ref (Value.obj entry) = do
  guard (count_fields entry == 5) history_invalid
  task_id ← require_id (member "taskId" entry)
  parent_turn_id ← require_id (member "parentTurnId" entry)
  child_turn_id ← require_id (member "childTurnId" entry)
  retry_of_task_id ← optional_id (member "retryOfTaskId" entry)
  attempt ← attempt_of (member "attempt" entry)
  ok (record {
    task_id = task_id;
    parent_turn_id = parent_turn_id;
    child_turn_id = child_turn_id;
    attempt = attempt;
    retry_of_task_id = retry_of_task_id;
  })
parse_ref _ = err history_invalid

-- The catch that turns an invalid identity into an invalid history.
unfoldable pub as_history_error {ℓ} :
    {A : Type ℓ} → Result DelegationError A → Result DelegationError A
as_history_error (ok a) = ok a
as_history_error (err e) = err history_invalid

-- Three identities of its own, two of them new.
unfoldable pub is_new_ref : List String → List String → ExistingDelegationRef → Bool
is_new_ref tasks children r = not (
    str_eq r.task_id r.parent_turn_id
    || str_eq r.task_id r.child_turn_id
    || str_eq r.parent_turn_id r.child_turn_id
    || includes tasks r.task_id
    || includes children r.child_turn_id)

-- The loop over the entries, with the identities seen so far.
unfoldable pub read_history :
    List String → List String → List Value → Result DelegationError (List ExistingDelegationRef)
read_history tasks children [] = ok []
read_history tasks children (entry ∷ rest) = do
  r ← as_history_error (parse_ref entry)
  guard (is_new_ref tasks children r) history_invalid
  refs ← read_history (r.task_id ∷ tasks) (r.child_turn_id ∷ children) rest
  ok (r ∷ refs)

-- `byParent.get(parent)`, in the order of the history.
unfoldable pub siblings : String → List ExistingDelegationRef → List ExistingDelegationRef
siblings parent [] = []
siblings parent (r ∷ refs) =
    let rest = siblings parent refs in if str_eq r.parent_turn_id parent then r ∷ rest else rest

abbrev pub earlier_attempt : ExistingDelegationRef → ExistingDelegationRef → Bool
earlier_attempt a b = leb a.attempt b.attempt

-- A first attempt retries nothing, a later one the task before it.
unfoldable pub retries : Option String → Option String → Bool
retries none none = true
retries none (some task) = false
retries (some prior) none = false
retries (some prior) (some task) = str_eq task prior

-- The loop over the attempts of one parent: `n` of them are past, the last of them the task `prior`.
unfoldable pub is_chain : ℕ → Option String → List ExistingDelegationRef → Bool
is_chain n prior [] = true
is_chain n prior (r ∷ refs) =
    r.attempt == suc n
    && (retries prior r.retry_of_task_id && is_chain (suc n) (some r.task_id) refs)

abbrev pub attempts_of : String → List ExistingDelegationRef → List ExistingDelegationRef
attempts_of parent refs = sort_by earlier_attempt (siblings parent refs)

unfoldable pub are_chains : List ExistingDelegationRef → Bool
are_chains refs =
    all (λ parent. is_chain 0 none (attempts_of parent refs))
      (distinct [] (map (λ r. r.parent_turn_id) refs))

abbrev pub max_history_records : ℕ
max_history_records = 1024

unfoldable pub validate_existing_delegation_history :
    List Value → Result DelegationError (List ExistingDelegationRef)
validate_existing_delegation_history existing = do
  guard (leb (length existing) max_history_records) history_invalid
  refs ← read_history [] [] existing
  guard (are_chains refs) history_invalid
  ok refs

-- `siblings.at(-1)`
unfoldable pub last_of : List ExistingDelegationRef → Option ExistingDelegationRef
last_of [] = none
last_of (r ∷ []) = some r
last_of (r ∷ s ∷ refs) = last_of (s ∷ refs)

-- The retry of the last attempt.
unfoldable pub admit_retry :
    ExistingDelegationRef → Option ExistingDelegationRef → Result DelegationError (Unit {0})
admit_retry new none = guard (new.attempt == 1 && not (is_some new.retry_of_task_id)) retry_invalid
admit_retry new (some prior) =
    if is_some new.retry_of_task_id
    then guard
        (retries (some prior.task_id) new.retry_of_task_id && new.attempt == suc prior.attempt)
        retry_invalid
    else err second_child_denied

-- The admission of the identities of an envelope, on a validated history.
unfoldable pub admit_ref :
    ExistingDelegationRef → List ExistingDelegationRef → Result DelegationError (Unit {0})
admit_ref new refs = do
  guard
      (not
        (any (λ r. str_eq r.task_id new.task_id || str_eq r.child_turn_id new.child_turn_id) refs))
      duplicate_identity
  admit_retry new (last_of (attempts_of new.parent_turn_id refs))

unfoldable pub validate_delegation_admission :
    ExistingDelegationRef → List Value → Result DelegationError (List ExistingDelegationRef)
validate_delegation_admission new existing = do
  refs ← validate_existing_delegation_history existing
  admit_ref new refs
  ok refs

-- The items of an array.
unfoldable pub entries_of : Items → List Value
entries_of Items.nil = []
entries_of (Items.cons v items) = v ∷ entries_of items

unfoldable pub parse_existing_delegation_history :
    Value → Result DelegationError (List ExistingDelegationRef)
parse_existing_delegation_history (Value.arr items) =
    validate_existing_delegation_history (entries_of items)
parse_existing_delegation_history _ = err history_invalid
