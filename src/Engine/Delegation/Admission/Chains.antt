-- ===== src/Engine/Delegation/Admission/Chains.antt =====
-- A history that a delegation was admitted to, with that delegation, is again a valid history.
use digital_employee.Common.{
  String, Bool, true, false, ◌&&◌, ◌||◌, not, none, List, [], ◌∷◌, ◌++◌, map, leb, str_eq,
  if◌then◌else◌, length, all, any, sort_by, ◌≡◌, refl, subst, arith, ◌⊎◌, inl, inr, Bool-cases,
  append-nil, eq_iff,
}
use digital_employee.Common.Value.{Value}
use digital_employee.Common.Result.{ok, guard, bind_inv, guard_inv}
use digital_employee.Org.Permissions.{distinct}
use digital_employee.Engine.Delegation.Errors.{history_invalid, duplicate_identity}
use digital_employee.Engine.Delegation.Scopes.Distinct.{distinct-any}
use digital_employee.Engine.Delegation.Admission.Attempts.{guard_ok, retry-chain}
use digital_employee.Engine.Delegation.Admission.{
  max_history_records, ExistingDelegationRef, parse_ref, as_history_error, is_new_ref, read_history,
  siblings, earlier_attempt, is_chain, attempts_of, are_chains,
  validate_existing_delegation_history, last_of, admit_retry, admit_ref,
  validate_delegation_admission,
}

-- The identities of a history are new, each after those before it.
unfoldable pub are_new : List String → List String → List ExistingDelegationRef → Bool
are_new tasks children [] = true
are_new tasks children (r ∷ refs) =
    is_new_ref tasks children r && are_new (r.task_id ∷ tasks) (r.child_turn_id ∷ children) refs

-- The attempts of every parent turn are one chain of retries.
abbrev pub AreChains : List ExistingDelegationRef → Type 0
AreChains refs = (parent : String) → is_chain 0 none (attempts_of parent refs) ≡ true

pub record IsHistory (refs : List ExistingDelegationRef) : Type 0 where
  pub new : are_new [] [] refs ≡ true
  pub chains : AreChains refs

read_history-are_new :
    (tasks children : List String) (existing : List Value) (refs : List ExistingDelegationRef)
    → read_history tasks children existing ≡ ok refs
    → are_new tasks children refs ≡ true
unfolding read_history are_new
read_history-are_new tasks children [] refs h =
    subst (λ rs. are_new tasks children rs ≡ true) {x = []} {y = refs} (cc h) refl
read_history-are_new tasks children (entry ∷ rest) refs h =
    let (r, p, h') = bind_inv (as_history_error (parse_ref entry)) _ h in
    let (t, g, h'') = bind_inv (guard (is_new_ref tasks children r) _) _ h' in
    let (others, o, e) =
      bind_inv (read_history (r.task_id ∷ tasks) (r.child_turn_id ∷ children) rest) _ h'' in
    subst (λ rs. are_new tasks children rs ≡ true) {x = r ∷ others} {y = refs} (cc e)
      (ground (
        arith,
        guard_ok (is_new_ref tasks children r) _ t g,
        read_history-are_new (r.task_id ∷ tasks) (r.child_turn_id ∷ children) rest others o,
      ))

-- `existing.some(…)`
abbrev repeats : ExistingDelegationRef → List ExistingDelegationRef → Bool
repeats new refs =
    any (λ r. str_eq r.task_id new.task_id || str_eq r.child_turn_id new.child_turn_id) refs

are_new-snoc :
    (tasks children : List String) (refs : List ExistingDelegationRef) (new : ExistingDelegationRef)
    → are_new tasks children refs ≡ true
    → is_new_ref tasks children new ≡ true
    → repeats new refs ≡ false
    → are_new tasks children (refs ++ new ∷ []) ≡ true
unfolding are_new
are_new-snoc tasks children [] new h k f = ground (arith, k)
are_new-snoc tasks children (r ∷ refs) new h k f = ground (
  arith,
  h,
  are_new-snoc (r.task_id ∷ tasks) (r.child_turn_id ∷ children) refs new (ground (arith, h))
      (still_new tasks children r new k (ground (arith, f))) (ground (arith, f)),
)
  where
    still_new :
        (tasks children : List String) (r new : ExistingDelegationRef)
        → is_new_ref tasks children new ≡ true
        → (str_eq r.task_id new.task_id || str_eq r.child_turn_id new.child_turn_id) ≡ false
        → is_new_ref (r.task_id ∷ tasks) (r.child_turn_id ∷ children) new ≡ true
    still_new tasks children r new k f = unfold is_new_ref in ground (arith, k, f)

all-any {ℓ} : {A : Type ℓ} (f : A → Bool) (xs : List A) → all f xs ≡ not (any (λ x. not (f x)) xs)
all-any f [] = refl
all-any f (x ∷ xs) = ground (arith, all-any f xs)

distinct-all :
    (f : String → Bool) (xs : List String) → all f (distinct [] xs) ≡ true → all f xs ≡ true
distinct-all f xs h =
    ground (arith, h, all-any f (distinct [] xs), all-any f xs, distinct-any (λ x. not (f x)) [] xs)

-- A parent has no attempts, or its chain was looked at.
siblings-all :
    (f : String → Bool) (parent : String) (refs : List ExistingDelegationRef)
    → all f (map (λ r. r.parent_turn_id) refs) ≡ true
    → (siblings parent refs ≡ []) ⊎ (f parent ≡ true)
unfolding siblings
siblings-all f parent [] h = inl refl
siblings-all f parent (r ∷ refs) h = elim (Bool-cases (str_eq r.parent_turn_id parent)) [
  | inl s ↦ inr (ground (arith, h, (eq_iff r.parent_turn_id parent).0 s))
  | inr s ↦ rw s (siblings-all f parent refs (ground (arith, h)))
]

are_chains-AreChains : (refs : List ExistingDelegationRef) → are_chains refs ≡ true → AreChains refs
unfolding are_chains
are_chains-AreChains refs h parent =
    elim (siblings-all (λ p. is_chain 0 none (attempts_of p refs)) parent refs
      (distinct-all _ (map (λ r. r.parent_turn_id) refs) h)) [
        | inl e ↦ nothing (siblings parent refs) e
        | inr t ↦ t
      ]
  where
    nothing :
        (rs : List ExistingDelegationRef)
        → rs ≡ []
        → is_chain 0 none (sort_by earlier_attempt rs) ≡ true
    nothing rs e = unfold is_chain sort_by in rw e refl

siblings-snoc :
    (parent : String) (refs : List ExistingDelegationRef) (new : ExistingDelegationRef)
    → siblings parent (refs ++ new ∷ [])
      ≡ siblings parent refs ++ (if str_eq new.parent_turn_id parent then new ∷ [] else [])
unfolding siblings
siblings-snoc parent [] new = refl
siblings-snoc parent (r ∷ refs) new = ground (arith, siblings-snoc parent refs new)

admitted-AreChains :
    (refs : List ExistingDelegationRef) (new : ExistingDelegationRef) (t : Unit {0})
    → AreChains refs
    → admit_retry new (last_of (attempts_of new.parent_turn_id refs)) ≡ ok t
    → AreChains (refs ++ new ∷ [])
admitted-AreChains refs new t h k parent = elim (Bool-cases (str_eq new.parent_turn_id parent)) [
  | inl s ↦
      let same = (eq_iff new.parent_turn_id parent).0 s in
      rw (siblings-snoc parent refs new) (
        rw s (
          retry-chain (siblings parent refs) new t (h parent)
            (subst (λ q. admit_retry new (last_of (attempts_of q refs)) ≡ ok t) same k)))
  | inr s ↦
      rw (siblings-snoc parent refs new) (rw s (rw (append-nil (siblings parent refs)) (h parent)))
]

validate_existing_delegation_history-IsHistory :
    (existing : List Value) (refs : List ExistingDelegationRef)
    → validate_existing_delegation_history existing ≡ ok refs
    → IsHistory refs
unfolding validate_existing_delegation_history
validate_existing_delegation_history-IsHistory existing refs h =
    let (few, h') = guard_inv (leb (length existing) max_history_records) history_invalid _ h in
    let (rs, r, k) = bind_inv (read_history [] [] existing) _ h' in
    let (c, e) = guard_inv (are_chains rs) history_invalid (ok rs) k in
    subst IsHistory {x = rs} {y = refs} (cc e) (record {
      new = read_history-are_new [] [] existing rs r;
      chains = are_chains-AreChains rs c;
    })

admit_ref-IsHistory :
    (new : ExistingDelegationRef) (refs : List ExistingDelegationRef) (t : Unit {0})
    → IsHistory refs
    → admit_ref new refs ≡ ok t
    → is_new_ref [] [] new ≡ true
    → IsHistory (refs ++ new ∷ [])
unfolding admit_ref
admit_ref-IsHistory new refs t h a own =
    let (g, k) = guard_inv (not (repeats new refs)) duplicate_identity _ a in
    record {
      new = are_new-snoc [] [] refs new h.new own (ground (arith, g));
      chains = admitted-AreChains refs new t h.chains k;
    }

-- Where a delegation with three identities is admitted to a history, the history with it is again
-- one: no identity is used twice, and the attempts of each parent turn are one chain of retries.
pub validate_delegation_admission-IsHistory :
    (new : ExistingDelegationRef) (existing : List Value) (refs : List ExistingDelegationRef)
    → validate_delegation_admission new existing ≡ ok refs
    → is_new_ref [] [] new ≡ true
    → IsHistory (refs ++ new ∷ [])
unfolding validate_delegation_admission
validate_delegation_admission-IsHistory new existing refs h own =
    let (rs, v, h') = bind_inv (validate_existing_delegation_history existing) _ h in
    let (t, a, e) = bind_inv (admit_ref new rs) _ h' in
    subst (λ x. IsHistory (x ++ new ∷ [])) {x = rs} {y = refs} (cc e)
      (admit_ref-IsHistory new rs t (validate_existing_delegation_history-IsHistory existing rs v) a
        own)
