-- ===== src/Engine/Requests/Batches.antt =====
-- What an accepted request is known to hold of its approvals.
use digital_employee.Common.{
  ℕ, ◌≤◌, String, ◌≡◌, ◌≢◌, ◌⊎◌, inl, inr, refl, ◌∙◌, arith, Bool, true, false, Option, none, some,
  List, [], ◌∷◌, str_eq, eq_iff, leb, if_some, is_some, not, length, All, map, ◌&&◌,
}
use digital_employee.Common.Dict.{includes}
use digital_employee.Common.Result.{ok, err, guard, bind_inv}
use digital_employee.Engine.Requests.{
  RawPendingApproval, RawTurnRequest, RequestError, input_invalid, text_of, check_batch,
  validate_pending_approval, at_most_one, check_pending_approvals, validate_approval_request_fields,
  validate_turn_request, assert_bounded_id, check_budget, check_position_budget_fields,
  validate_approval_action, input_fits,
}

guard_lem : (b : Bool) (e : RequestError) → guard b e ≡ ok tt → b ≡ true
guard_lem true e h = refl
guard_lem false e h = cc

not_lem : (b : Bool) → not b ≡ true → b ≡ false
not_lem true h = cc
not_lem false h = refl

-- No text occurs twice.
abbrev pub IsDistinct : List String → Type 0
IsDistinct [] = Unit
IsDistinct (x ∷ xs) = All (λ y. y ≢ x) xs × IsDistinct xs

abbrev pub ids_of : List RawPendingApproval → List String
ids_of = map (λ pending. text_of pending.approval_id)

abbrev Agrees : Option String → RawPendingApproval → Type 0
Agrees none pending = Unit
Agrees (some d) pending = text_of pending.decision ≡ d

agrees_lem :
    (decision : Option String) (pending : RawPendingApproval)
    → if_some decision (λ d. str_eq d (text_of pending.decision)) true ≡ true
    → Agrees decision pending
unfolding if_some
agrees_lem none pending h = tt
agrees_lem (some d) pending h = ground (arith, eq_iff d (text_of pending.decision))

-- One decision for all.
abbrev pub HaveOneDecision : List RawPendingApproval → Type 0
HaveOneDecision [] = Unit
HaveOneDecision (first ∷ rest) =
    All (λ pending. text_of pending.decision ≡ text_of first.decision) rest

AllFresh : List String → List RawPendingApproval → Type 0
AllFresh ids = All (λ pending. includes ids (text_of pending.approval_id) ≡ false)

apart :
    (id : String) (ids : List String) (ps : List RawPendingApproval)
    → AllFresh (id ∷ ids) ps
    → All (λ y. y ≢ id) (ids_of ps) × AllFresh ids ps
unfolding AllFresh
apart id ids [] h = (tt, tt)
apart id ids (p ∷ ps) h =
    let (others, older) = apart id ids ps h.1 in
    ((ground (arith, eq_iff id (text_of p.approval_id)), others), (ground arith, older))

Agrees-All :
    (decision : Option String) (p : RawPendingApproval) (qs : List RawPendingApproval)
    → Agrees decision p
    → All (λ q. text_of q.decision ≡ text_of p.decision) qs
    → All (Agrees decision) qs
Agrees-All none p [] a h = tt
Agrees-All none p (q ∷ qs) a h = (tt, Agrees-All none p qs a h.1)
Agrees-All (some d) p [] a h = tt
Agrees-All (some d) p (q ∷ qs) a h = (h.0 ∙ a, Agrees-All (some d) p qs a h.1)

-- What the validator promises of a batch.
pub record IsBatch (ps : List RawPendingApproval) : Type 0 where
  pub at_least_two : 2 ≤ length ps
  pub at_most_32 : length ps ≤ 32
  pub distinct_ids : IsDistinct (ids_of ps)
  pub one_decision : HaveOneDecision ps

-- Two of the three are absent.
abbrev pub AtMostOne : RawTurnRequest → Type 0
AtMostOne request =
    ((request.pending_approval ≡ none) × (request.pending_approvals ≡ none))
    ⊎ ((request.approval_action ≡ none) × (request.pending_approvals ≡ none))
    ⊎ ((request.approval_action ≡ none) × (request.pending_approval ≡ none))

-- A batch that is present is one.
abbrev pub AnyBatch : Option (List RawPendingApproval) → Type 0
AnyBatch none = Unit
AnyBatch (some ps) = IsBatch ps

one_of {ℓ κ μ} :
    {A : Type ℓ} {B : Type κ} {C : Type μ} (a : Option A) (b : Option B) (c : Option C)
    → at_most_one (is_some a) (is_some b) (is_some c) ≡ true
    → ((b ≡ none) × (c ≡ none)) ⊎ ((a ≡ none) × (c ≡ none)) ⊎ ((a ≡ none) × (b ≡ none))
one_of none none c h = inr (inr (refl, refl))
one_of (some a) none none h = inl (refl, refl)
one_of none (some b) none h = inr (inl (refl, refl))
one_of (some a) (some b) c h = cc h
one_of (some a) none (some c) h = cc h
one_of none (some b) (some c) h = cc h

module _ (parse_date : String → Option ℕ) where
  check_batch_inv :
      (ids : List String) (decision : Option String) (ps : List RawPendingApproval)
      → check_batch parse_date ids decision ps ≡ ok tt
      → AllFresh ids ps × IsDistinct (ids_of ps) × All (Agrees decision) ps × HaveOneDecision ps
  unfolding check_batch AllFresh
  check_batch_inv ids decision [] h = (tt, tt, tt, tt)
  check_batch_inv ids decision (p ∷ ps) h =
      let (_, _, h1) = bind_inv (validate_pending_approval parse_date p) _ h in
      let (_, n, h2) =
        bind_inv (guard (not (includes ids (text_of p.approval_id))) input_invalid) _ h1 in
      let (_, d, h3) =
        bind_inv (guard (if_some decision (λ d. str_eq d (text_of p.decision)) true) input_invalid)
          _ h2 in
      let (fresh, distinct, agree, one) =
        check_batch_inv (text_of p.approval_id ∷ ids) (some (text_of p.decision)) ps h3 in
      let (others, older) = apart (text_of p.approval_id) ids ps fresh in
      let a = agrees_lem decision p (guard_lem _ _ (d ∙ refl)) in
      (
        (not_lem _ (guard_lem _ _ (n ∙ refl)), older),
        (others, distinct),
        (a, Agrees-All decision p ps a agree),
        agree,
      )

  check_pending_approvals-IsBatch :
      (ps : List RawPendingApproval) → check_pending_approvals parse_date ps ≡ ok tt → IsBatch ps
  unfolding check_pending_approvals
  check_pending_approvals-IsBatch ps h =
      let (_, g, h1) =
        bind_inv (guard (leb 2 (length ps) && leb (length ps) 32) input_invalid) _ h in
      let (_, distinct, _, one) = check_batch_inv [] none ps h1 in
      let size : (leb 2 (length ps) && leb (length ps) 32) ≡ true = guard_lem _ _ g in
      record {
        at_least_two = ground (arith, size);
        at_most_32 = ground (arith, size);
        distinct_ids = distinct;
        one_decision = one;
      }

  any_batch :
      (o : Option (List RawPendingApproval))
      → if_some o (check_pending_approvals parse_date) (ok tt) ≡ ok tt
      → AnyBatch o
  unfolding if_some
  any_batch none h = tt
  any_batch (some ps) h = check_pending_approvals-IsBatch ps h

  fields-Settles :
      (request : RawTurnRequest)
      → validate_approval_request_fields parse_date request ≡ ok tt
      → AtMostOne request × AnyBatch request.pending_approvals
  unfolding validate_approval_request_fields if_some
  fields-Settles request h =
      let (_, g, h1) =
        bind_inv
          (guard
            (at_most_one (is_some request.approval_action) (is_some request.pending_approval)
              (is_some request.pending_approvals))
            input_invalid)
          _ h in
      let (_, _, h2) =
        bind_inv (if_some request.approval_action validate_approval_action (ok tt)) _ h1 in
      let (_, _, h3) =
        bind_inv (if_some request.pending_approval (validate_pending_approval parse_date) (ok tt)) _
          h2 in
      (one_of _ _ _ (guard_lem _ _ g), any_batch request.pending_approvals h3)

  -- An accepted request has at most one of an action, a verdict and a batch of verdicts, and its batch,
  -- if it has one, has 2 to 32 members, no two of one id, and all of one decision.
  pub validate_turn_request-IsBatch :
      (request : RawTurnRequest)
      → validate_turn_request parse_date request ≡ ok tt
      → AtMostOne request × AnyBatch request.pending_approvals
  unfolding validate_turn_request
  validate_turn_request-IsBatch request h =
      let (_, _, h1) = bind_inv (assert_bounded_id request.workspace_ref) _ h in
      let (_, _, h2) = bind_inv (assert_bounded_id request.position_id) _ h1 in
      let (_, _, h3) = bind_inv (assert_bounded_id request.turn_id) _ h2 in
      let (_, _, h4) = bind_inv (assert_bounded_id request.run_id) _ h3 in
      let (_, _, h5) = bind_inv (guard (input_fits request.input) input_invalid) _ h4 in
      let (_, _, h6) = bind_inv (if_some request.budget check_budget (err input_invalid)) _ h5 in
      let (_, _, h7) =
        bind_inv
          (if_some request.deadline
            (λ deadline. guard (is_some (parse_date deadline)) input_invalid) (ok tt))
          _ h6 in
      let (_, _, h8) =
        bind_inv (if_some request.position_budget (check_position_budget_fields request) (ok tt)) _
          h7 in
      fields-Settles request h8
