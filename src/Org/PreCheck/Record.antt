-- ===== src/Org/PreCheck/Record.antt =====
-- What a denial of the pre-check records.
use digital_employee.Common.Dict.{includes}
use digital_employee.Common.{
  String, Bool, true, false, Option, none, some, List, [], ◌∷◌, ◌≡◌, refl, subst, if◌then◌else◌,
  or_else, if_cases, if_some_cases, any,
}
use digital_employee.Org.Permissions.{
  covers, tool_authority, context_access, entry, inherited, missing, lookup,
  OrganizationPermissions, DenialCode, PermissionDecision, allowed, denied, context_decision,
  tool_decision, PermissionDenialAttempt, PermissionGate, create_permission_gate, record_decision,
  check_position, evaluate_context_read, evaluate_tool_call, summary, evaluate_context_access,
  evaluate_tool_authority, context_denied, authority_denied,
}
use digital_employee.Org.Paths.{normalize_context_path}
use digital_employee.Org.PreCheck.{
  unknown_denial, unless_denied, check_reads, check_tools, then_tools, denial_of, pre_check, Denial,
}

module _ (permissions : OrganizationPermissions) (position_id : String) where
  -- A denial sends the caller to the owner.
  abbrev IsOwned : PermissionDecision → Type 0
  IsOwned allowed = Unit
  IsOwned (denied code redirect_to) = redirect_to ≡ permissions.owner

  test-IsOwned :
      (b : Bool) (code : DenialCode)
      → IsOwned (if b then allowed else denied code permissions.owner)
  test-IsOwned true code = tt
  test-IsOwned false code = refl

  tool_decision-IsOwned : (tool : String) → IsOwned (tool_decision permissions position_id tool)
  unfolding tool_decision evaluate_tool_authority tool_authority
  tool_decision-IsOwned tool =
      elim (lookup permissions position_id)
        as (λ l. IsOwned (
          or_else (tool_authority permissions tool l)
            (denied authority_denied permissions.owner))) [
              | entry found ↦ test-IsOwned (includes found.tools_allow tool) authority_denied
              | inherited ↦ refl
              | missing ↦ refl
            ]

  context_decision-IsOwned :
      (requested : String) → IsOwned (context_decision permissions position_id requested)
  unfolding context_decision evaluate_context_access context_access
  context_decision-IsOwned requested =
      elim (lookup permissions position_id)
        as (λ l. IsOwned (
          or_else (context_access permissions requested l)
            (denied context_denied permissions.owner))) [
              | entry found ↦
                  if_some_cases
                    (λ (o : Option PermissionDecision).
                      IsOwned (or_else o (denied context_denied permissions.owner)))
                    (normalize_context_path requested) _ none
                    (λ normalized n.
                      test-IsOwned (any (covers normalized) found.read) context_denied)
                    (λ n. refl)
              | inherited ↦ refl
              | missing ↦ refl
            ]

  -- The one denial of this position, which carries the code and the owner.
  abbrev pub IsOneDenial : DenialCode → List PermissionDenialAttempt → Type 0
  IsOneDenial code denials =
      (attempt : PermissionDenialAttempt) × (denials ≡ attempt ∷ [])
      × (attempt.code ≡ code)
      × (attempt.redirect_to ≡ permissions.owner)
      × (attempt.position_id ≡ position_id)

  abbrev IsRecorded : Option DenialCode × PermissionGate → Type 0
  IsRecorded (none, gate) = gate.denials ≡ []
  IsRecorded (some code, gate) = IsOneDenial code gate.denials

  unless_denied-IsRecorded :
      (d : PermissionDecision) (requested : String) (gate : PermissionGate)
      (rest : PermissionGate → Option DenialCode × PermissionGate)
      → IsOwned d
      → gate.denials ≡ []
      → ((gate' : PermissionGate) → gate'.denials ≡ [] → IsRecorded (rest gate'))
      → IsRecorded (
          unless_denied d
            (record_decision position_id requested d gate)
            (rest (record_decision position_id requested d gate)))
  unfolding unless_denied record_decision
  unless_denied-IsRecorded allowed requested gate rest o h k = k _ h
  unless_denied-IsRecorded (denied code redirect_to) requested gate rest o h k = (
    record {
      position_id = position_id;
      requested = requested;
      code = code;
      redirect_to = redirect_to;
    },
    rw h refl,
    refl,
    o,
    refl,
  )

  check_tools-IsRecorded :
      (tools : List String) (gate : PermissionGate)
      → gate.denials ≡ []
      → IsRecorded (check_tools permissions position_id tools gate)
  unfolding check_tools evaluate_tool_call
  check_tools-IsRecorded [] gate h = h
  check_tools-IsRecorded (t ∷ tools) gate h =
      unless_denied-IsRecorded (tool_decision permissions position_id t) t gate
        (check_tools permissions position_id tools) (tool_decision-IsOwned t) h
        (check_tools-IsRecorded tools)

  check_reads-IsRecorded :
      (reads : List String) (gate : PermissionGate)
      → gate.denials ≡ []
      → IsRecorded (check_reads permissions position_id reads gate)
  unfolding check_reads evaluate_context_read
  check_reads-IsRecorded [] gate h = h
  check_reads-IsRecorded (r ∷ reads) gate h =
      unless_denied-IsRecorded (context_decision permissions position_id r) r gate
        (check_reads permissions position_id reads) (context_decision-IsOwned r) h
        (check_reads-IsRecorded reads)

  then_tools-IsRecorded :
      (tools : List String) (r : Option DenialCode × PermissionGate)
      → IsRecorded r
      → IsRecorded (then_tools permissions position_id tools r)
  unfolding then_tools
  then_tools-IsRecorded tools (none, gate) h = check_tools-IsRecorded tools gate h
  then_tools-IsRecorded tools (some code, gate) h = h

  denial_of-IsOneDenial :
      (r : Option DenialCode × PermissionGate) (d : Denial)
      → IsRecorded r
      → denial_of r ≡ some d
      → IsOneDenial d.code d.denials × (d.summary.deny_count ≡ 1)
  unfolding denial_of summary
  denial_of-IsOneDenial (none, gate) d h e = cc
  denial_of-IsOneDenial (some code, gate) d (attempt, one, c, o, p) e =
      subst (λ d. IsOneDenial d.code d.denials × (d.summary.deny_count ≡ 1))
        {x = record { code = code; summary = summary gate; denials = gate.denials }} {y = d} (cc)
        ((attempt, one, c, o, p), rw one refl)

  -- A pre-check that stops the turn has recorded one denial: it names the position, it carries the
  -- code that the turn reports, it sends the caller to the owner, and the summary counts it.
  pub pre_check-IsOneDenial :
      (reads tools : List String) (d : Denial)
      → pre_check permissions position_id reads tools ≡ some d
      → IsOneDenial d.code d.denials × (d.summary.deny_count ≡ 1)
  unfolding pre_check
  pre_check-IsOneDenial reads tools d =
      if_cases P (check_position permissions position_id) _ _
        (λ known h.
          denial_of-IsOneDenial _ d
            (then_tools-IsRecorded tools _
              (check_reads-IsRecorded reads create_permission_gate refl))
            h)
        (λ unknown h.
          subst (λ (d : Denial). IsOneDenial d.code d.denials × (d.summary.deny_count ≡ 1))
            {x = unknown_denial permissions position_id} {y = d} (cc)
            ((_, refl, refl, refl, refl), refl))
    where
      P : Option Denial → Type 0
      P o = o ≡ some d → IsOneDenial d.code d.denials × (d.summary.deny_count ≡ 1)
