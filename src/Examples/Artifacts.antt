-- ===== src/Examples/Artifacts.antt =====
-- A permissions artifact with one position.
use digital_employee.Common.Value.{member}
use digital_employee.Org.Artifact.{authority_scope_of}
use digital_employee.Org.Artifact.{boolean_of}
use digital_employee.Org.Artifact.{escalation_of}
use digital_employee.Org.Artifact.{equals_text}
use digital_employee.Org.Artifact.{mode_of}
use digital_employee.Org.Artifact.{require_items}
use digital_employee.Org.Artifact.{require_object}
use digital_employee.Org.Artifact.{require_text}
use digital_employee.Org.Artifact.{require_texts}
use digital_employee.Org.Artifact.{tier_of}
use digital_employee.Org.Artifact.{validate_position}
use digital_employee.Org.Artifact.{validate_positions}
use digital_employee.Common.{true, none, some, [], ◌∷◌, ◌≡◌, refl}
use digital_employee.Common.Result.{ok}
use digital_employee.Common.Value.{Value}
use digital_employee.Engine.Delegation.Canonical.{fields_of, texts}
use digital_employee.Org.Permissions.{read_only}
use digital_employee.Org.Artifact.{
  PositionEntry, PermissionsArtifact, owner, validate_organization_permissions_artifact,
}
use digital_employee.Org.Artifact.Valid.{
  IsValidArtifact, validate_organization_permissions_artifact-IsValidArtifact,
}

abbrev position : Value
position = Value.obj (
    fields_of (
      ("position", Value.str "lead")
      ∷ ("tier", Value.str "owner")
      ∷ ("mode", Value.str "read_only")
      ∷ ("contextScope", Value.obj (fields_of (("read", Value.arr (texts ("./" ∷ []))) ∷ [])))
      ∷ (
        "authorityScope",
        Value.obj (
            fields_of (
              ("writes", Value.str "deny")
              ∷ (
                "tools",
                Value.obj (
                    fields_of (
                      ("allow", Value.arr (texts ("Read" ∷ [])))
                      ∷ ("deny", Value.arr (texts ("Bash" ∷ [])))
                      ∷ [])),
              )
              ∷ (
                "delegation",
                Value.obj (
                    fields_of (
                      ("allow", Value.bool true)
                      ∷ ("targets", Value.arr (texts ("worker" ∷ [])))
                      ∷ ("escalateTo", Value.null)
                      ∷ [])),
              )
              ∷ [])),
      )
      ∷ []))

abbrev raw : Value
raw = Value.obj (
    fields_of (
      ("schemaVersion", Value.str "org-permissions.v1")
      ∷ ("business", Value.str "shop")
      ∷ ("owner", Value.str "lead")
      ∷ ("positions", Value.obj (fields_of (("lead", position) ∷ [])))
      ∷ []))

abbrev entry : PositionEntry
entry = record {
  tier = owner;
  mode = some read_only;
  read = "./" ∷ [];
  authority = record {
    tools_allow = "Read" ∷ [];
    tools_deny = "Bash" ∷ [];
    delegation_allow = true;
    targets = "worker" ∷ [];
    escalate_to = none;
  };
}

abbrev artifact : PermissionsArtifact
artifact = record { business = "shop"; owner = "lead"; positions = ("lead", entry) ∷ [] }

artifact_validated : validate_organization_permissions_artifact raw ≡ ok artifact
unfolding validate_organization_permissions_artifact require_object equals_text member fields_of
    require_text validate_positions validate_position tier_of mode_of require_texts require_items
    texts authority_scope_of boolean_of escalation_of
artifact_validated = refl

validate_organization_permissions_artifact-IsValidArtifact_example : IsValidArtifact artifact
validate_organization_permissions_artifact-IsValidArtifact_example =
    validate_organization_permissions_artifact-IsValidArtifact raw artifact artifact_validated
