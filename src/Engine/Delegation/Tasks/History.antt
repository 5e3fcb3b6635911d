-- ===== src/Engine/Delegation/Tasks/History.antt =====
-- The history that a store keeps of admitted delegations is read back.
use digital_employee.Common.{
  String, Bool, true, Option, none, some, List, [], ◌∷◌, ◌++◌, leb, ltb, ◌≡◌, refl, subst, arith,
  all, length, length-append, map,
}
use digital_employee.Common.Result.{ok, bind_inv, guard_inv}
use digital_employee.Common.Value.{member, Value, Fields, Items}
use digital_employee.Org.Permissions.{distinct}
use digital_employee.Engine.Delegation.Errors.{history_invalid}
use digital_employee.Engine.Delegation.Identities.{is_identifier, require_id}
use digital_employee.Engine.Delegation.Admission.{
  attempt_of, ExistingDelegationRef, optional_id, parse_ref, as_history_error, is_new_ref,
  read_history, is_chain, attempts_of, are_chains, max_history_records,
  validate_existing_delegation_history, entries_of,
}
use digital_employee.Engine.Delegation.Admission.Chains.{IsHistory, AreChains, are_new}
use digital_employee.Runner.ReplayGuard.Shape.{count_fields}

-- A reference as JSON.
abbrev pub retry_value : Option String → Value
retry_value none = Value.null
retry_value (some task) = Value.str task

abbrev pub ref_value : ExistingDelegationRef → Value
ref_value r = Value.obj (
    Fields.field "taskId" (Value.str r.task_id) (
      Fields.field "parentTurnId" (Value.str r.parent_turn_id) (
        Fields.field "childTurnId" (Value.str r.child_turn_id) (
          Fields.field "attempt" (Value.num r.attempt)
            (Fields.field "retryOfTaskId" (retry_value r.retry_of_task_id) Fields.end)))))

abbrev pub array_of : List Value → Items
array_of [] = Items.nil
array_of (v ∷ vs) = Items.cons v (array_of vs)

abbrev pub identifier_if_any : Option String → Bool
identifier_if_any none = true
identifier_if_any (some s) = is_identifier s

-- The identities are identifiers, and the attempt is at least the first.
pub record IsWritable (r : ExistingDelegationRef) : Type 0 where
  pub task : is_identifier r.task_id ≡ true
  pub parent : is_identifier r.parent_turn_id ≡ true
  pub child : is_identifier r.child_turn_id ≡ true
  pub retried : identifier_if_any r.retry_of_task_id ≡ true
  pub attempt : leb 1 r.attempt ≡ true

pub entries_of-array_of : (vs : List Value) → entries_of (array_of vs) ≡ vs
unfolding entries_of
entries_of-array_of [] = refl
entries_of-array_of (v ∷ vs) = rw (entries_of-array_of vs) refl

optional_id-retry_value :
    (o : Option String) → identifier_if_any o ≡ true → optional_id (retry_value o) ≡ ok o
unfolding optional_id require_id
optional_id-retry_value none h = refl
optional_id-retry_value (some s) h = rw h refl

-- What is written is what is read.
parse_ref-ref_value : (r : ExistingDelegationRef) → IsWritable r → parse_ref (ref_value r) ≡ ok r
unfolding parse_ref require_id attempt_of count_fields member
parse_ref-ref_value r w = rw w.task (
    rw w.parent
      (rw w.child (rw (optional_id-retry_value r.retry_of_task_id w.retried) (rw w.attempt refl))))

read_history-snoc :
    (tasks children : List String) (existing : List Value) (refs : List ExistingDelegationRef)
    (r : ExistingDelegationRef)
    → IsWritable r
    → read_history tasks children existing ≡ ok refs
    → are_new tasks children (refs ++ r ∷ []) ≡ true
    → read_history tasks children (existing ++ ref_value r ∷ []) ≡ ok (refs ++ r ∷ [])
unfolding read_history are_new as_history_error
read_history-snoc tasks children [] refs r w h n =
    subst
      (λ rs.
        are_new tasks children (rs ++ r ∷ []) ≡ true
        → read_history tasks children (ref_value r ∷ []) ≡ ok (rs ++ r ∷ []))
      {x = []} {y = refs} (cc h)
      (λ n'.
        let new : is_new_ref tasks children r ≡ true = ground (arith, n') in
        rw (parse_ref-ref_value r w) (rw new refl))
      n
read_history-snoc tasks children (v ∷ existing) refs r w h n =
    let (s, p, h1) = bind_inv (as_history_error (parse_ref v)) _ h in
    let (new, h2) = guard_inv (is_new_ref tasks children s) history_invalid _ h1 in
    let (others, o, e) =
      bind_inv (read_history (s.task_id ∷ tasks) (s.child_turn_id ∷ children) existing) _ h2 in
    subst
      (λ rs.
        are_new tasks children (rs ++ r ∷ []) ≡ true
        → read_history tasks children (v ∷ existing ++ ref_value r ∷ []) ≡ ok (rs ++ r ∷ []))
      {x = s ∷ others} {y = refs} (cc e)
      (λ n'. rw p (
        rw new (
          rw
            (read_history-snoc (s.task_id ∷ tasks) (s.child_turn_id ∷ children) existing others r w
              o (ground (arith, n')))
            refl)))
      n

all-true {ℓ} : {A : Type ℓ} (p : A → Bool) (xs : List A) → ((x : A) → p x ≡ true) → all p xs ≡ true
all-true p [] h = refl
all-true p (x ∷ xs) h = ground (arith, h x, all-true p xs h)

AreChains-are_chains : (refs : List ExistingDelegationRef) → AreChains refs → are_chains refs ≡ true
unfolding are_chains
AreChains-are_chains refs h =
    all-true (λ parent. is_chain 0 none (attempts_of parent refs))
      (distinct [] (map (λ r. r.parent_turn_id) refs)) h

-- A history that is read, with one more record that makes it a history again, is read back.
pub history-snoc :
    (existing : List Value) (refs : List ExistingDelegationRef) (r : ExistingDelegationRef)
    → IsWritable r
    → read_history [] [] existing ≡ ok refs
    → IsHistory (refs ++ r ∷ [])
    → ltb (length existing) max_history_records ≡ true
    → validate_existing_delegation_history (existing ++ ref_value r ∷ []) ≡ ok (refs ++ r ∷ [])
unfolding validate_existing_delegation_history
history-snoc existing refs r w h i bound =
    let fits : leb (length (existing ++ ref_value r ∷ [])) max_history_records ≡ true =
      ground (arith, bound, length-append existing (ref_value r ∷ [])) in
    rw fits (
      rw (read_history-snoc [] [] existing refs r w h i.new)
        (rw (AreChains-are_chains (refs ++ r ∷ []) i.chains) refl))
