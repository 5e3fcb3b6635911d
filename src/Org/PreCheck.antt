-- ===== src/Org/PreCheck.antt =====
-- packages/engine/src/turn-executor.ts: the permission pre-check at the head of executeTurn, which
-- runs before any event is emitted and before the model is called.
pub mod Denied
pub mod Record
use digital_employee.Common.{
  ℕ, zero, suc, String, Bool, true, false, Option, none, some, List, [], ◌∷◌, if◌then◌else◌,
  if_some, or_else,
}
use digital_employee.Org.Permissions.{
  OrganizationPermissions, DenialCode, position_unknown, denial_code_text, PermissionDecision,
  allowed, denied, PermissionDenialAttempt, PermissionDecisionSummary, PermissionGate,
  create_permission_gate, check_position, evaluate_context_read, evaluate_tool_call, summary,
}

-- `if (decision.status === "denied") { deniedCode = decision.code; break }`
unfoldable pub unless_denied :
    PermissionDecision
    → PermissionGate
    → Option DenialCode × PermissionGate
    → Option DenialCode × PermissionGate
unless_denied allowed gate rest = rest
unless_denied (denied code redirect_to) gate rest = (some code, gate)

-- The loop over the context reads.
unfoldable pub check_reads :
    OrganizationPermissions
    → String
    → List String
    → PermissionGate
    → Option DenialCode × PermissionGate
check_reads permissions position_id [] gate = (none, gate)
check_reads permissions position_id (requested ∷ rest) gate =
    let (decision, gate') = evaluate_context_read permissions position_id requested gate in
    unless_denied decision gate' (check_reads permissions position_id rest gate')

-- The loop over the tools.
unfoldable pub check_tools :
    OrganizationPermissions
    → String
    → List String
    → PermissionGate
    → Option DenialCode × PermissionGate
check_tools permissions position_id [] gate = (none, gate)
check_tools permissions position_id (tool ∷ rest) gate =
    let (decision, gate') = evaluate_tool_call permissions position_id tool gate in
    unless_denied decision gate' (check_tools permissions position_id rest gate')

pub record Denial : Type 0 where
  pub code : DenialCode
  pub summary : PermissionDecisionSummary
  pub denials : List PermissionDenialAttempt

-- The record of an unknown position is written by hand.
abbrev pub unknown_denial : OrganizationPermissions → String → Denial
unknown_denial permissions position_id = record {
  code = position_unknown;
  summary = record {
    allow_count = 0;
    deny_count = 1;
    codes_seen = denial_code_text position_unknown ∷ [];
    redirect_to_targets = permissions.owner ∷ [];
  };
  denials =
      record {
        position_id = position_id;
        requested = position_id;
        code = position_unknown;
        redirect_to = permissions.owner;
      }
      ∷ [];
}

unfoldable pub denial_of : Option DenialCode × PermissionGate → Option Denial
denial_of (none, gate) = none
denial_of (some code, gate) =
    some (record { code = code; summary = summary gate; denials = gate.denials })

-- The tools are looked at only where no read was denied.
unfoldable pub then_tools :
    OrganizationPermissions
    → String
    → List String
    → Option DenialCode × PermissionGate
    → Option DenialCode × PermissionGate
then_tools permissions position_id tools (none, gate) =
    check_tools permissions position_id tools gate
then_tools permissions position_id tools (some code, gate) = (some code, gate)

-- What the pre-check denies, if anything.
unfoldable pub pre_check :
    OrganizationPermissions → String → List String → List String → Option Denial
pre_check permissions position_id reads tools =
    if check_position permissions position_id
    then denial_of (
        then_tools permissions position_id tools
          (check_reads permissions position_id reads create_permission_gate))
    else some (unknown_denial permissions position_id)

pub data Terminal : Type 0 where
  permissions_invalid evidence_write_failed : Terminal
  permission_denied : DenialCode → Terminal

-- How the turn ends when it does: the evidence that was written, and the terminal event.
pub record Settled : Type 0 where
  pub evidence : Option Denial
  pub terminal : Terminal

-- `sink`: no sink, or whether it accepts a record.
unfoldable pub settle_denial : Option (Denial → Bool) → Denial → Settled
settle_denial sink denial =
    if_some sink
      (λ accepts.
        if accepts denial
        then record { evidence = some denial; terminal = permission_denied denial.code }
        else record { evidence = none; terminal = evidence_write_failed })
      (record { evidence = none; terminal = permission_denied denial.code })

-- The whole stage, on the permissions of the request and what the validator made of them; `none`
-- lets the turn go on.
unfoldable pub permission_stage :
    Option (Option OrganizationPermissions)
    → Option (Denial → Bool)
    → String
    → List String
    → List String
    → Option Settled
permission_stage none sink position_id reads tools = none
permission_stage (some none) sink position_id reads tools =
    some (record { evidence = none; terminal = permissions_invalid })
permission_stage (some (some permissions)) sink position_id reads tools =
    if_some (pre_check permissions position_id reads tools)
      (λ denial. some (settle_denial sink denial)) none
