-- ===== src/Engine/Turn/Calls/Closed.antt =====
-- What a turn emits at a closed approval gate.
use digital_employee.Common.{◌≡◌, inl, inr, refl, sym, subst, List, [], ◌∷◌, if_some, Option-cases}
use digital_employee.Common.Result.{ok}
use digital_employee.Engine.DoomLoop
use digital_employee.Engine.DoomLoop.{DoomLoopDetector}
use digital_employee.Engine.Turn.Events.{Event}
use digital_employee.Engine.Turn.Program.{stop, return}
use digital_employee.Engine.Turn.World.{EngineTurnRequest, World}
use digital_employee.Engine.Turn.Stops.{RunState}
use digital_employee.Engine.Turn.Gate.{sum, context_cap, approval_gate}
use digital_employee.Engine.Turn.Execute.{governed, execute, create_detector, or_throw}
use digital_employee.Engine.Turn.Settled.Whole.{LedgerAnswers, bind_go, read_usage_some}
use digital_employee.Engine.Turn.Calls.{calls}
use digital_employee.Engine.Turn.Calls.Emitted.{events, Goes, Emits, Emits-bind, Emits-stop}
use digital_employee.Engine.Turn.Calls.Bounds.{verdicts, IsClosed, refused_lem, closed_silent}
use digital_employee.Engine.Turn.Calls.Closing.{
  SinkAccepts, IsWithinCap, Closes, settle_verdicts-Closes, request_approval-Closes, not_above,
}

module _ (w : World) (request : EngineTurnRequest) where
  approval_gate-Closes :
      (s : RunState)
      → SinkAccepts w
      → IsClosed w request
      → (es : List Event) × Closes w (verdicts w request) request.approval_action es
        × Emits es (approval_gate w request s)
  unfolding approval_gate if_some
  approval_gate-Closes s a = elim (Option-cases request.pending_approvals) [
    | inr (ps, p) ↦ rw p (λ h. settle_verdicts-Closes w ps _ s a (refused_lem w request ps _ h))
    | inl n ↦ rw n (elim (Option-cases request.pending_approval) [
      | inr (q, p) ↦
          rw p (λ h. settle_verdicts-Closes w (q ∷ []) _ s a (refused_lem w request (q ∷ []) _ h))
      | inl n' ↦ rw n' (elim (Option-cases request.approval_action) [
        | inr (action, e) ↦ rw e (λ h. request_approval-Closes w action s a)
        | inl n'' ↦ rw n'' (λ h. elim h [ inl (ps, e, r) ↦ cc | inr (e, y) ↦ cc ])
      ])
    ])
  ]

  context_cap-Goes :
      (s : RunState)
      → IsWithinCap w request.max_context_bytes
      → Goes [] tt (context_cap w request s)
  unfolding context_cap if_some return
  context_cap-Goes s = elim (Option-cases request.max_context_bytes) [
    | inl n ↦ rw n (λ h. (refl, refl))
    | inr (cap, e) ↦ rw e (λ h. rw (not_above cap (sum w.block_bytes) h) (refl, refl))
  ]

  governed-Closes :
      (s : RunState)
      → SinkAccepts w
      → IsWithinCap w request.max_context_bytes
      → IsClosed w request
      → (es : List Event) × Closes w (verdicts w request) request.approval_action es
        × Emits es (governed w request s)
  unfolding governed
  governed-Closes s a c k =
      let (es, x, e) = approval_gate-Closes s a k in
      (es, x, Emits-bind [] es tt _ _ (context_cap-Goes s c) (Emits-stop es _ _ e))

  execute-Emits :
      {d : DoomLoopDetector}
      → DoomLoop.create request.doom_loop ≡ ok d
      → LedgerAnswers w request
      → SinkAccepts w
      → IsWithinCap w request.max_context_bytes
      → IsClosed w request
      → (es : List Event) × Closes w (verdicts w request) request.approval_action es
        × Emits es (execute w request)
  unfolding execute create_detector or_throw
  execute-Emits {d} h l a c k =
      let (u, r) = read_usage_some w request l in
      let start : RunState = record {
        approval_refs = [];
        iterations_used = 0;
        tokens_used = 0;
        position_usage = u;
        detector = d;
        violations = [];
      } in
      let (es, x, e) = governed-Closes start a c k in
      (es, x, rw h (rw (bind_go d) (rw r (rw (bind_go u) e))))

  -- At a closed gate, where the verdict brought is expired or denied or the turn asks for an approval, the
  -- model is not called and the turn returns, having emitted just the denials and the terminal failure
  -- that belong to the case. This is so where the detector can be created, the first read of the ledger
  -- is not rejected, the evidence sink takes its records, and the context is within its cap.
  pub execute-Closes :
      {d : DoomLoopDetector}
      → DoomLoop.create request.doom_loop ≡ ok d
      → LedgerAnswers w request
      → SinkAccepts w
      → IsWithinCap w request.max_context_bytes
      → IsClosed w request
      → Closes w (verdicts w request) request.approval_action (events (execute w request).0)
        × ((execute w request).1 ≡ stop)
        × (calls (execute w request).0 ≡ 0)
  execute-Closes {d} h l a c k =
      let (es, x, e) = execute-Emits h l a c k in
      (
        subst (Closes w (verdicts w request) request.approval_action) (sym e.0) x,
        e.1,
        closed_silent w request k,
      )
