-- ===== src/Engine/Turn/Calls/Closing.antt =====
-- How the approval gate settles a turn.
use digital_employee.Common.{
  ℕ, ◌≤◌, String, ◌≡◌, ◌⊎◌, inl, inr, refl, ap, true, false, Option, none, some, List, [], ◌∷◌,
  ◌++◌, map, arith, ltb, if_some, Option-cases, Bool-cases,
}
use digital_employee.Engine.Approval.{
  TurnPendingApprovalInput, TurnApprovalActionInput, preview_gate_refuses,
}
use digital_employee.Engine.Turn.Events.{
  Event, run_failed, approval_requested, approval_denied, cancelled, engine_internal_error,
  TurnEvidenceRecord,
}
use digital_employee.Engine.Turn.Program.{return, perform, try_catch, ◌>>=◌}
use digital_employee.Engine.Turn.World.{World}
use digital_employee.Engine.Turn.Stops.{RunState, settlement_evidence, write_evidence}
use digital_employee.Engine.Turn.Gate.{
  sum, any_expired, first_denied, emit_denied, settle_verdicts, settle_expired, settle_denied,
  request_approval, refuse_preview, ask_operator,
}
use digital_employee.Engine.Turn.Calls.Emitted.{Goes, Emits, Emits-bind, emit-Goes, settle-Emits}

abbrev denials : List TurnPendingApprovalInput → List Event
denials = map (λ p. approval_denied p.approval_id)

emit_denied-Goes : (ps : List TurnPendingApprovalInput) → Goes (denials ps) tt (emit_denied ps)
unfolding emit_denied return ◌>>=◌ perform
emit_denied-Goes [] = (refl, refl)
emit_denied-Goes (p ∷ ps) =
    let (h, e) = emit_denied-Goes ps in (ap (λ es. approval_denied p.approval_id ∷ es) h, e)

pub not_above : (cap n : ℕ) → n ≤ cap → ltb cap n ≡ false
not_above cap n h = ground (arith, h)

module _ (w : World) where
  -- The evidence sink, if there is one, takes every record.
  abbrev pub SinkAccepts : Type 0
  SinkAccepts = (r : TurnEvidenceRecord) → w.evidence_sink_accepts r ≡ true

  -- The assembled blocks are within the cap, if there is one.
  abbrev pub IsWithinCap : Option ℕ → Type 0
  IsWithinCap none = Unit
  IsWithinCap (some cap) = sum w.block_bytes ≤ cap

  -- How the gate settles a turn: on the verdicts that it brings, or on the action that it asks for.
  pub data Closes (pending : Option (List TurnPendingApprovalInput))
      (action : Option TurnApprovalActionInput) (es : List Event) : Type 0 where
    expired_verdict :
        (ps : List TurnPendingApprovalInput)
        → pending ≡ some ps
        → any_expired w 0 ps ≡ true
        → es ≡ run_failed "engine.approval_expired" cancelled false ∷ []
        → Closes pending action es
    denied_verdict :
        (ps : List TurnPendingApprovalInput)
        → pending ≡ some ps
        → any_expired w 0 ps ≡ false
        → first_denied ps ≡ true
        → es
          ≡ map (λ p. approval_denied p.approval_id) ps
            ++ run_failed "engine.approval_denied" cancelled false ∷ []
        → Closes pending action es
    asked :
        (a : TurnApprovalActionInput)
        → pending ≡ none
        → action ≡ some a
        → preview_gate_refuses a ≡ none
        → es
          ≡ approval_requested w.new_id ∷ run_failed "engine.approval_required" cancelled true ∷ []
        → Closes pending action es
    refused_preview :
        (a : TurnApprovalActionInput) (code : String)
        → pending ≡ none
        → action ≡ some a
        → preview_gate_refuses a ≡ some code
        → es ≡ run_failed code engine_internal_error false ∷ []
        → Closes pending action es

  settlement_evidence-Goes :
      (r : TurnEvidenceRecord) → SinkAccepts → Goes [] tt (settlement_evidence w r)
  unfolding settlement_evidence write_evidence try_catch perform return
  settlement_evidence-Goes r h = elim (Bool-cases w.has_evidence_sink) [
    | inl e ↦ rw e (rw (h r) (refl, refl))
    | inr e ↦ rw e (refl, refl)
  ]

  settle_expired-Emits :
      (ps : List TurnPendingApprovalInput) (s : RunState)
      → SinkAccepts
      → Emits (run_failed "engine.approval_expired" cancelled false ∷ []) (settle_expired w ps s)
  unfolding settle_expired
  settle_expired-Emits ps s h =
      Emits-bind [] (run_failed "engine.approval_expired" cancelled false ∷ []) tt _ _
        (settlement_evidence-Goes _ h) (settle-Emits _)

  settle_denied-Emits :
      (ps : List TurnPendingApprovalInput) (s : RunState)
      → SinkAccepts
      → Emits
          (denials ps ++ run_failed "engine.approval_denied" cancelled false ∷ [])
          (settle_denied w ps s)
  unfolding settle_denied
  settle_denied-Emits ps s h =
      Emits-bind [] (denials ps ++ run_failed "engine.approval_denied" cancelled false ∷ []) tt _ _
        (settlement_evidence-Goes _ h)
        (Emits-bind (denials ps) (run_failed "engine.approval_denied" cancelled false ∷ []) tt _ _
          (emit_denied-Goes ps) (settle-Emits _))

  pub settle_verdicts-Closes :
      (ps : List TurnPendingApprovalInput) (action : Option TurnApprovalActionInput) (s : RunState)
      → SinkAccepts
      → (any_expired w 0 ps ≡ true) ⊎ (first_denied ps ≡ true)
      → (es : List Event) × Closes (some ps) action es × Emits es (settle_verdicts w ps s)
  unfolding settle_verdicts
  settle_verdicts-Closes ps action s h r = elim (Bool-cases (any_expired w 0 ps)) [
    | inl x ↦ (_, expired_verdict ps refl x refl, rw x (settle_expired-Emits ps s h))
    | inr x ↦
        let d : first_denied ps ≡ true = elim r [ inl y ↦ cc (x, y) | inr d ↦ d ] in
        (_, denied_verdict ps refl x d refl, rw x (rw d (settle_denied-Emits ps s h)))
  ]

  pub request_approval-Closes :
      (a : TurnApprovalActionInput) (s : RunState)
      → SinkAccepts
      → (es : List Event) × Closes none (some a) es × Emits es (request_approval w a s)
  unfolding request_approval refuse_preview ask_operator if_some
  request_approval-Closes a s h = elim (Option-cases (preview_gate_refuses a)) [
    | inl n ↦ (
      _,
      asked a refl refl n refl,
      rw n (
          Emits-bind []
            (approval_requested w.new_id
              ∷ run_failed "engine.approval_required" cancelled true
              ∷ [])
            tt _ _ (settlement_evidence-Goes _ h)
            (Emits-bind (approval_requested w.new_id ∷ [])
              (run_failed "engine.approval_required" cancelled true ∷ []) tt _ _ (emit-Goes _)
              (settle-Emits _))),
    )
    | inr (code, c) ↦ (
      _,
      refused_preview a code refl refl c refl,
      rw c (
          Emits-bind [] (run_failed code engine_internal_error false ∷ []) tt _ _
            (settlement_evidence-Goes _ h) (settle-Emits _)),
    )
  ]
