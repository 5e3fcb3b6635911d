-- ===== src/Examples/Writes.antt =====
-- The write-approval engine on one write.
use digital_employee.Common.{
  List, ◌≡◌, ◌≢◌, ◌≤◌, ◌↔◌, refl, true, false, none, some, [], ◌∷◌, if_some,
}
use digital_employee.Common.Dict.{get, set}
use digital_employee.Common.Value.{Value}
use digital_employee.WriteApproval.Requests.{WritePreviewRequest}
use digital_employee.WriteApproval.{
  create_preview, WriteApprovalEngine, empty_engine, InternalEntry, WritePreview,
  WriteApprovalDecision, Outcome, executing, begin_execute, finish_execute, finish_entry, started,
  submit_decision, decide_entry, begin_entry, classify_approval_guard, is_member, new_entry,
  new_preview,
}
use digital_employee.WriteApproval.Once.{
  Operation, apply, apply_all, executed_once, create, submit, start, finish,
}
use digital_employee.WriteApproval.Guards.{classify_approval_guard-none_iff}
use digital_employee.WriteApproval.Authorised.{AllAuthorised}
use digital_employee.WriteApproval.Overlaps.{Runs-AllAuthorised}
use digital_employee.Common.{inl}

abbrev request : WritePreviewRequest
request = record {
  task_id = "t";
  tool_name = "write";
  target = Value.null;
  target_uri = "file:a";
  effect = Value.null;
  effect_type = "put";
  declared_tools = none;
}

abbrev preview : WritePreview
preview = new_preview "digest" "key" "p1" "token1" request

abbrev decision : WriteApprovalDecision
decision = record {
  preview_id = "p1";
  approved = true;
  preview_digest = "digest";
  attempt = 1;
  fencing_token = "token1";
  expires_at = 100;
}

-- The preview while its executor runs.
abbrev running : InternalEntry
running = record {
  preview = record preview { state = executing };
  decision = some decision;
  result = none;
  timeline = executing ∷ [];
}

abbrev engine : WriteApprovalEngine
engine = record empty_engine { entries = ("p1", running) ∷ [] }

abbrev done : Outcome
done = record { success = true; compensation_required = false }

classify_approval_guard-none_iff_example : classify_approval_guard decision 50 [] preview ≡ none ↔ (
    (decision.preview_digest ≡ preview.preview_digest)
    × (decision.attempt ≡ preview.attempt)
    × (decision.fencing_token ≡ preview.fencing_token)
    × (is_member preview.idempotency_key [] ≡ false)
    × (50 ≤ decision.expires_at))
classify_approval_guard-none_iff_example = classify_approval_guard-none_iff decision 50 [] preview

-- Two previews of one write are approved, their executions overlap, and the first ends last.
abbrev overlapping : List Operation
overlapping =
    create "p1" "token1" request
    ∷ submit decision 50
    ∷ start "p1"
    ∷ create "p2" "token2" request
    ∷ submit (record decision { preview_id = "p2"; fencing_token = "token2" }) 50
    ∷ start "p2"
    ∷ finish (some done) "unused" "p2"
    ∷ finish none "unused" "p1"
    ∷ []

Runs-AllAuthorised_example :
    AllAuthorised (apply_all (λ r. "digest") (λ r. "key") overlapping empty_engine)
unfolding apply get set create_preview submit_decision decide_entry begin_execute begin_entry
    classify_approval_guard if_some
Runs-AllAuthorised_example =
    Runs-AllAuthorised (λ r. "digest") (λ r. "key") overlapping
      (refl, (tt, (tt, (refl, (tt, (tt, (inl refl, (inl refl, tt))))))))

-- The entry of a second preview of the same write.
abbrev second : InternalEntry
second = new_entry (new_preview "digest" "key" "p2" "token2" request)

executed_once_example :
    begin_execute "p2" (
      apply_all
        (λ r. "digest")
        (λ r. "key")
        (create "p2" "token2" request ∷ [])
        (finish_execute (some done) "unused" "p1" engine))
    ≢ started engine
unfolding get set finish_execute finish_entry apply apply_all create_preview if_some
executed_once_example =
    executed_once (λ r. "digest") (λ r. "key") running second done "unused" "p1" "p2"
      (create "p2" "token2" request ∷ []) engine engine refl refl refl refl
