-- ===== src/WriteApproval/Overlaps.antt =====
-- Executions that overlap: only one that has begun ends, so it ends on an executing entry.
use digital_employee.Common.{
  String, true, ◌≡◌, inl, inr, arith, List, [], ◌∷◌, eq_iff, if_some, Option-cases, Bool-cases,
}
use digital_employee.Common.Dict.{get}
use digital_employee.WriteApproval.Requests.{WritePreviewRequest}
use digital_employee.WriteApproval.{
  WriteApprovalEngine, create_preview, submit_decision, begin_execute, finish_execute, new_entry,
  new_preview, is_member, empty_engine,
}
use digital_employee.WriteApproval.Once.{Operation, create, submit, start, finish, apply, apply_all}
use digital_employee.WriteApproval.Authorised.{
  IsLegit, AllAuthorised, AllLegit, apply_all-AllAuthorised,
}
use digital_employee.WriteApproval.Flights.{
  Tracks, Fits, flights_after, set-Tracks, decide_entry-id, put_result-Tracks, begin_entry-Tracks,
  finish_entry-Tracks, empty-Tracks,
}

module _ (digest key_of : WritePreviewRequest → String) where
  step-Tracks :
      (op : Operation) (engine : WriteApprovalEngine) (fs : List String)
      → Fits op engine fs
      → Tracks fs engine.entries
      → Tracks (flights_after op engine fs) (apply digest key_of op engine).entries
  unfolding apply create_preview submit_decision begin_execute finish_execute if_some
  step-Tracks (create preview_id token request) engine fs new t =
      elim (Bool-cases
        (if_some request.declared_tools (λ declared. is_member request.tool_name declared) true)) [
          | inr d ↦ rw d t
          | inl d ↦ rw d (
              set-Tracks fs fs
                (new_entry (new_preview (digest request) (key_of request) preview_id token request))
                engine.entries t (λ j a n. a)
                (λ j a y.
                  let (e, g, x) = t.running j a in
                  let same : preview_id ≡ j = ground (arith, y, eq_iff preview_id j) in
                  cc (g, new, same)))
        ]
  step-Tracks (submit decision now) engine fs u t =
      elim (Option-cases (get decision.preview_id engine.entries)) [
        | inl n ↦ rw n t
        | inr (e, g) ↦ rw g (
            put_result-Tracks fs engine decision.preview_id e _ t g
              (decide_entry-id decision now engine.consumed_keys e))
      ]
  step-Tracks (start preview_id) engine fs u t =
      elim (Option-cases (get preview_id engine.entries)) [
        | inl n ↦ rw n t
        | inr (e, g) ↦ rw g (begin_entry-Tracks fs engine preview_id e t g)
      ]
  step-Tracks (finish outcome token preview_id) engine fs a t =
      let (e, g, x) = t.running preview_id a in
      rw g (finish_entry-Tracks fs engine preview_id token e outcome t g)

  -- Every preview gets a new id, and every execution that ends has begun and has not ended before.
  abbrev pub Runs : List Operation → WriteApprovalEngine → List String → Type 0
  Runs [] engine fs = Unit
  Runs (op ∷ ops) engine fs =
      Fits op engine fs × Runs ops (apply digest key_of op engine) (flights_after op engine fs)

  legit_lem :
      (op : Operation) (engine : WriteApprovalEngine) (fs : List String)
      → Fits op engine fs
      → Tracks fs engine.entries
      → IsLegit op engine
  legit_lem (create preview_id token request) engine fs f t = tt
  legit_lem (submit decision now) engine fs f t = tt
  legit_lem (start preview_id) engine fs f t = tt
  legit_lem (finish outcome token preview_id) engine fs f t = t.running preview_id f

  Runs-AllLegit :
      (ops : List Operation) (engine : WriteApprovalEngine) (fs : List String)
      → Tracks fs engine.entries
      → Runs ops engine fs
      → AllLegit digest key_of ops engine
  Runs-AllLegit [] engine fs t r = tt
  Runs-AllLegit (op ∷ ops) engine fs t r =
      (legit_lem op engine fs r.0 t, Runs-AllLegit ops _ _ (step-Tracks op engine fs r.0 t) r.1)

  -- On a new engine, whatever previews, decisions and executions come, and however the executions
  -- overlap, if every preview gets a new id and only an execution that has begun ends, and ends once: an
  -- entry that is approved, executing, executed or failed has a positive decision on record, and that
  -- decision names the digest which the preview shows.
  pub Runs-AllAuthorised :
      (ops : List Operation)
      → Runs ops empty_engine []
      → AllAuthorised (apply_all digest key_of ops empty_engine)
  Runs-AllAuthorised ops r =
      apply_all-AllAuthorised digest key_of ops (Runs-AllLegit ops empty_engine [] empty-Tracks r)
