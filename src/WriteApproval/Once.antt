-- ===== src/WriteApproval/Once.antt =====
-- A write that has succeeded is not executed again.
use digital_employee.Common.{
  ℕ, String, true, ◌≡◌, ◌≢◌, inl, inr, arith, Option, none, some, List, [], ◌∷◌, eq_iff, eq_refl,
  if_some, is_some, Option-cases, Bool-cases,
}
use digital_employee.Common.Dict.{get, get-set}
use digital_employee.Common.Result.{Result, ok, err}
use digital_employee.WriteApproval.Requests.{WritePreviewRequest}
use digital_employee.WriteApproval.{
  WriteApprovalEngine, InternalEntry, WriteApprovalDecision, EngineError, Begun, started, cached,
  refused, Outcome, create_preview, submit_decision, begin_execute, begin_entry, finish_execute,
  finish_entry, successful, put_result, WritePreview, may_execute, is_member, result_of,
  final_state,
}

-- The operations of the engine, a call of `execute` in its two halves.
pub data Operation : Type 0 where
  create : String → String → WritePreviewRequest → Operation
  submit : WriteApprovalDecision → ℕ → Operation
  start : String → Operation
  finish : Option Outcome → String → String → Operation

abbrev pub after_create :
    WriteApprovalEngine
    → Result EngineError (WriteApprovalEngine × WritePreview)
    → WriteApprovalEngine
after_create engine (ok (engine', preview)) = engine'
after_create engine (err e) = engine

abbrev pub after_submit :
    WriteApprovalEngine → Result EngineError WriteApprovalEngine → WriteApprovalEngine
after_submit engine (ok engine') = engine'
after_submit engine (err e) = engine

abbrev pub after_begin : WriteApprovalEngine → Begun → WriteApprovalEngine
after_begin engine (started engine') = engine'
after_begin engine (cached r) = engine
after_begin engine (refused e) = engine

-- A successful result is cached under the key.
abbrev pub IsDone : String → WriteApprovalEngine → Type 0
IsDone key engine = is_some (successful (get key engine.idempotency_cache)) ≡ true

module _ (digest key_of : WritePreviewRequest → String) where
  unfoldable pub apply : Operation → WriteApprovalEngine → WriteApprovalEngine
  apply (create preview_id token request) engine =
      after_create engine (create_preview digest key_of preview_id token request engine)
  apply (submit decision now) engine = after_submit engine (submit_decision decision now engine)
  apply (start preview_id) engine = after_begin engine (begin_execute preview_id engine)
  apply (finish outcome token preview_id) engine = finish_execute outcome token preview_id engine

  unfoldable pub apply_all : List Operation → WriteApprovalEngine → WriteApprovalEngine
  apply_all [] engine = engine
  apply_all (op ∷ ops) engine = apply_all ops (apply op engine)

  finish_entry-IsDone :
      (outcome : Option Outcome) (token : String) (e : InternalEntry) (engine : WriteApprovalEngine)
      (key : String)
      → IsDone key engine
      → IsDone key (finish_entry outcome token e engine)
  unfolding finish_entry
  finish_entry-IsDone none token e engine key h = h
  finish_entry-IsDone (some outcome) token e engine key h = ground (
    arith,
    get-set e.preview.idempotency_key key (result_of e (final_state outcome) outcome.success)
        engine.idempotency_cache,
    eq_iff e.preview.idempotency_key key,
  )

  put_result-IsDone :
      (engine : WriteApprovalEngine) (key : String) (r : Result EngineError InternalEntry)
      → IsDone key engine
      → IsDone key (after_submit engine (put_result engine r))
  put_result-IsDone engine key (ok e) h = h
  put_result-IsDone engine key (err e) h = h

  begin_entry-IsDone :
      (e : InternalEntry) (engine : WriteApprovalEngine) (key : String)
      → IsDone key engine
      → IsDone key (after_begin engine (begin_entry e engine))
  unfolding begin_entry if_some
  begin_entry-IsDone e engine key h =
      elim (Option-cases (successful (get e.preview.idempotency_key engine.idempotency_cache))) [
        | inl n ↦
            rw n
              (elim (Bool-cases (may_execute e.preview.state)) [ inl m ↦ rw m h | inr m ↦ rw m h ])
        | inr (r, c) ↦ rw c h
      ]

  apply-IsDone :
      (op : Operation) (engine : WriteApprovalEngine) (key : String)
      → IsDone key engine
      → IsDone key (apply op engine)
  unfolding apply create_preview submit_decision begin_execute finish_execute if_some
  apply-IsDone (create preview_id token request) engine key h =
      elim (Bool-cases
        (if_some request.declared_tools (λ declared. is_member request.tool_name declared) true)) [
          | inl d ↦ rw d h
          | inr d ↦ rw d h
        ]
  apply-IsDone (submit decision now) engine key h =
      elim (Option-cases (get decision.preview_id engine.entries)) [
        | inl n ↦ rw n h
        | inr (e, g) ↦ rw g (put_result-IsDone engine key _ h)
      ]
  apply-IsDone (start preview_id) engine key h =
      elim (Option-cases (get preview_id engine.entries)) [
        | inl n ↦ rw n h
        | inr (e, g) ↦ rw g (begin_entry-IsDone e engine key h)
      ]
  apply-IsDone (finish outcome token preview_id) engine key h =
      elim (Option-cases (get preview_id engine.entries)) [
        | inl n ↦ rw n h
        | inr (e, g) ↦ rw g (finish_entry-IsDone outcome token e engine key h)
      ]

  apply_all-IsDone :
      (ops : List Operation) (engine : WriteApprovalEngine) (key : String)
      → IsDone key engine
      → IsDone key (apply_all ops engine)
  unfolding apply_all
  apply_all-IsDone [] engine key h = h
  apply_all-IsDone (op ∷ ops) engine key h =
      apply_all-IsDone ops (apply op engine) key (apply-IsDone op engine key h)

  -- A successful execution is cached under its key.
  finish_entry-success :
      (outcome : Outcome) (token : String) (e : InternalEntry) (engine : WriteApprovalEngine)
      → outcome.success ≡ true
      → IsDone e.preview.idempotency_key (finish_entry (some outcome) token e engine)
  unfolding finish_entry
  finish_entry-success outcome token e engine h = ground (
    arith,
    get-set e.preview.idempotency_key e.preview.idempotency_key
        (result_of e (final_state outcome) outcome.success) engine.idempotency_cache,
    eq_refl e.preview.idempotency_key,
  )

  IsDone-begin :
      (e : InternalEntry) (engine engine' : WriteApprovalEngine)
      → IsDone e.preview.idempotency_key engine
      → begin_entry e engine ≢ started engine'
  unfolding begin_entry if_some
  IsDone-begin e engine engine' h s =
      elim (Option-cases (successful (get e.preview.idempotency_key engine.idempotency_cache))) [
        | inl n ↦ cc
        | inr (r, c) ↦ cc
      ]

  -- Once the executor of a preview has reported success, no execution of any preview with the same
  -- idempotency key starts again, whatever operations come in between.
  pub executed_once :
      (first again : InternalEntry) (outcome : Outcome) (token first_id again_id : String)
      (ops : List Operation) (engine engine' : WriteApprovalEngine)
      → get first_id engine.entries ≡ some first
      → outcome.success ≡ true
      → get again_id (apply_all ops (finish_execute (some outcome) token first_id engine)).entries
        ≡ some again
      → again.preview.idempotency_key ≡ first.preview.idempotency_key
      → begin_execute again_id (apply_all ops (finish_execute (some outcome) token first_id engine))
        ≢ started engine'
  unfolding finish_execute begin_execute if_some
  executed_once first again outcome token first_id again_id ops engine engine' f o a same = rw a (
      IsDone-begin again _ engine' (
        rw same
          (apply_all-IsDone ops _ _ (rw f (finish_entry-success outcome token first engine o)))))
