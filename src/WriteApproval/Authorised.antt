-- ===== src/WriteApproval/Authorised.antt =====
-- That nothing is approved or executed without a positive decision on record.
use digital_employee.Common.{
  ℕ, String, Bool, true, false, ◌≡◌, inl, inr, refl, Option, none, some, List, [], ◌∷◌, str_eq,
  if_some, Option-cases, Bool-cases, subst,
}
use digital_employee.Common.Dict.{get, get-set}
use digital_employee.Common.Result.{Result, ok, err}
use digital_employee.WriteApproval.Requests.{WritePreviewRequest}
use digital_employee.WriteApproval.{
  WriteApprovalEngine, InternalEntry, WriteApprovalDecision, EngineError, Outcome,
  WriteApprovalState, preview_pending, preview_validated, approved, denied, expired, executing,
  success, failed, partial_fail, create_preview, submit_decision, begin_execute, begin_entry,
  finish_execute, finish_entry, successful, put_result, decide_entry, classify_approval_guard,
  is_member, may_execute, move_to, put, new_entry, new_preview, is_preview_validated, empty_engine,
}
use digital_employee.WriteApproval.Once.{
  Operation, create, submit, start, finish, apply, apply_all, after_submit, after_begin,
}
use digital_employee.WriteApproval.Guards.{classify_approval_guard-none_iff}

-- The states that an entry reaches only by an approval.
abbrev pub needs_approval : WriteApprovalState → Bool
needs_approval approved = true
needs_approval executing = true
needs_approval success = true
needs_approval failed = true
needs_approval partial_fail = true
needs_approval _ = false

-- A positive decision on the digest that the preview shows is on record.
abbrev pub IsAuthorised : InternalEntry → Type 0
IsAuthorised e =
    needs_approval e.preview.state ≡ true
    → (d : WriteApprovalDecision) × (e.decision ≡ some d)
      × (d.approved ≡ true)
      × (d.preview_digest ≡ e.preview.preview_digest)

abbrev pub AllAuthorised : WriteApprovalEngine → Type 0
AllAuthorised engine =
    (id : String) (e : InternalEntry) → get id engine.entries ≡ some e → IsAuthorised e

put-AllAuthorised :
    (e : InternalEntry) (engine : WriteApprovalEngine)
    → IsAuthorised e
    → AllAuthorised engine
    → AllAuthorised (put e engine)
put-AllAuthorised e engine h k id e' g = elim (Bool-cases (str_eq e.preview.preview_id id)) [
  | inl same ↦
      subst IsAuthorised {x = e} {y = e'}
        (cc (get-set e.preview.preview_id id e engine.entries, same, g)) h
  | inr other ↦ k id e' (cc (get-set e.preview.preview_id id e engine.entries, other, g))
]

decide_entry-IsAuthorised :
    (d : WriteApprovalDecision) (now : ℕ) (keys : List String) (e e' : InternalEntry)
    → decide_entry d now keys e ≡ ok e'
    → IsAuthorised e'
unfolding decide_entry if_some classify_approval_guard
decide_entry-IsAuthorised d now keys e e' =
    elim (Bool-cases (is_preview_validated e.preview.state)) [
      | inl v ↦ rw v (elim (Bool-cases d.approved) [
        | inl a ↦ rw a (elim (Option-cases (classify_approval_guard d now keys e.preview)) [
          | inl n ↦ rw n (λ h.
              subst IsAuthorised {x = record (move_to approved e) { decision = some d }} {y = e'}
                (cc)
                (λ needs.
                  (d, refl, a, ((classify_approval_guard-none_iff d now keys e.preview).0 n).0)))
          | inr (code, c) ↦ rw c (λ h. cc)
        ])
        | inr a ↦ rw a (λ h.
            subst IsAuthorised {x = record (move_to denied e) { decision = some d }} {y = e'} (cc)
              (λ needs. cc))
      ])
      | inr v ↦ rw v (λ h. cc)
    ]

may_execute_lem : (s : WriteApprovalState) → may_execute s ≡ true → needs_approval s ≡ true
may_execute_lem approved h = refl
may_execute_lem failed h = refl
may_execute_lem preview_validated h = cc
may_execute_lem preview_pending h = cc
may_execute_lem denied h = cc
may_execute_lem expired h = cc
may_execute_lem executing h = cc
may_execute_lem success h = cc
may_execute_lem partial_fail h = cc

begin_entry-AllAuthorised :
    (e : InternalEntry) (engine : WriteApprovalEngine)
    → IsAuthorised e
    → AllAuthorised engine
    → AllAuthorised (after_begin engine (begin_entry e engine))
unfolding begin_entry if_some
begin_entry-AllAuthorised e engine h k =
    elim (Option-cases (successful (get e.preview.idempotency_key engine.idempotency_cache))) [
      | inl n ↦ rw n (elim (Bool-cases (may_execute e.preview.state)) [
        | inl m ↦ rw m (
            put-AllAuthorised (move_to executing e) engine
              (λ needs. h (may_execute_lem e.preview.state m)) k)
        | inr m ↦ rw m k
      ])
      | inr (r, c) ↦ rw c k
    ]

finish_entry-AllAuthorised :
    (outcome : Option Outcome) (token : String) (e : InternalEntry) (engine : WriteApprovalEngine)
    → e.preview.state ≡ executing
    → IsAuthorised e
    → AllAuthorised engine
    → AllAuthorised (finish_entry outcome token e engine)
unfolding finish_entry
finish_entry-AllAuthorised none token e engine x h k =
    put-AllAuthorised _ engine (λ needs. h (rw x refl)) k
finish_entry-AllAuthorised (some outcome) token e engine x h k = elim (Bool-cases outcome.success) [
  | inl s ↦ rw s (put-AllAuthorised _ engine (λ needs. h (rw x refl)) k)
  | inr s ↦ rw s (put-AllAuthorised _ engine (λ needs. cc) k)
]

-- `execute` goes on after the executor only where it has started it: its entry is executing.
abbrev pub IsLegit : Operation → WriteApprovalEngine → Type 0
IsLegit (finish outcome token id) engine =
    (e : InternalEntry) × (get id engine.entries ≡ some e) × (e.preview.state ≡ executing)
IsLegit _ engine = Unit

put_result-AllAuthorised :
    (engine : WriteApprovalEngine) (r : Result EngineError InternalEntry)
    → ((e : InternalEntry) → r ≡ ok e → IsAuthorised e)
    → AllAuthorised engine
    → AllAuthorised (after_submit engine (put_result engine r))
put_result-AllAuthorised engine (ok e) h k = put-AllAuthorised e engine (h e refl) k
put_result-AllAuthorised engine (err error) h k = k

module _ (digest key_of : WritePreviewRequest → String) where
  apply-AllAuthorised :
      (op : Operation) (engine : WriteApprovalEngine)
      → IsLegit op engine
      → AllAuthorised engine
      → AllAuthorised (apply digest key_of op engine)
  unfolding apply create_preview submit_decision begin_execute finish_execute if_some
  apply-AllAuthorised (create preview_id token request) engine l k =
      elim (Bool-cases
        (if_some request.declared_tools (λ declared. is_member request.tool_name declared) true)) [
          | inl d ↦ rw d (
              put-AllAuthorised
                (new_entry (new_preview (digest request) (key_of request) preview_id token request))
                engine (λ needs. cc) k)
          | inr d ↦ rw d k
        ]
  apply-AllAuthorised (submit decision now) engine l k =
      elim (Option-cases (get decision.preview_id engine.entries)) [
        | inl n ↦ rw n k
        | inr (e, g) ↦ rw g (
            put_result-AllAuthorised engine _
              (decide_entry-IsAuthorised decision now engine.consumed_keys e) k)
      ]
  apply-AllAuthorised (start preview_id) engine l k =
      elim (Option-cases (get preview_id engine.entries)) [
        | inl n ↦ rw n k
        | inr (e, g) ↦ rw g (begin_entry-AllAuthorised e engine (k preview_id e g) k)
      ]
  apply-AllAuthorised (finish outcome token preview_id) engine (e, g, x) k =
      rw g (finish_entry-AllAuthorised outcome token e engine x (k preview_id e g) k)

  -- Every end of an execution in the sequence falls on an entry that is executing.
  abbrev pub AllLegit : List Operation → WriteApprovalEngine → Type 0
  AllLegit [] engine = Unit
  AllLegit (op ∷ ops) engine = IsLegit op engine × AllLegit ops (apply digest key_of op engine)

  steps-AllAuthorised :
      (ops : List Operation) (engine : WriteApprovalEngine)
      → AllLegit ops engine
      → AllAuthorised engine
      → AllAuthorised (apply_all digest key_of ops engine)
  unfolding apply_all
  steps-AllAuthorised [] engine l k = k
  steps-AllAuthorised (op ∷ ops) engine l k =
      steps-AllAuthorised ops (apply digest key_of op engine) l.1
        (apply-AllAuthorised op engine l.0 k)

  -- The invariant along a sequence in which an execution ends only on an executing entry.
  pub apply_all-AllAuthorised :
      (ops : List Operation)
      → AllLegit ops empty_engine
      → AllAuthorised (apply_all digest key_of ops empty_engine)
  unfolding get
  apply_all-AllAuthorised ops l = steps-AllAuthorised ops empty_engine l new_engine
    where
      new_engine : AllAuthorised empty_engine
      new_engine id e g = cc
