-- ===== src/Engine/Delegation/Routes.antt =====
-- The route of a delegation: validateRouteAndDigests.
use digital_employee.Common.{
  String, Bool, true, false, ◌&&◌, not, Option, none, some, List, [], ◌∷◌, str_eq, if◌then◌else◌,
  if_some,
}
use digital_employee.Common.Dict.{Dict, get, includes, inherited_names}
use digital_employee.Common.Result.{Result, ok, err, guard, ◌>>=◌, ◌>>◌}
use digital_employee.Common.Value.{Value}
use digital_employee.Engine.Delegation.Errors.{
  DelegationError, applied_state_stale, route_denied, context_denied, type_error,
}
use digital_employee.Engine.Delegation.Canonical.{compute_canonical_digest}
use digital_employee.Engine.Delegation.Scopes.{
  DelegationPositionPermissions, EffectiveDelegationScope, derive_effective_delegation_scope,
}
use digital_employee.Engine.Delegation.Envelope.{DelegationEnvelope}

pub record Role : Type 0 where
  pub id : String
  pub report_to : Option String

-- The typed fields of an applied artifact, and the whole of it, which is digested.
pub record DelegationOrganization : Type 0 where
  pub owner : String
  pub roles : List Role
  pub whole : Value

pub record DelegationPermissions : Type 0 where
  pub owner : String
  pub positions : Dict DelegationPositionPermissions
  pub whole : Value

-- `organization.roles.find(…)`
unfoldable pub role_of : String → List Role → Option Role
role_of id [] = none
role_of id (r ∷ roles) = if str_eq r.id id then some r else role_of id roles

-- `permissions.positions[id]`: an own entry, what every object inherits, or nothing.
pub data Position : Type 0 where
  own : DelegationPositionPermissions → Position
  inherited missing : Position

abbrev inherited_position : Bool → Position
inherited_position true = inherited
inherited_position false = missing

unfoldable pub position_of : String → Dict DelegationPositionPermissions → Position
position_of id positions =
    if_some (get id positions) (λ p. own p) (inherited_position (includes inherited_names id))

abbrev pub reports_to : String → Option Role → Bool
reports_to id none = false
reports_to id (some r) = if_some r.report_to (λ superior. str_eq superior id) false

-- The last conditions, on both positions; the scope of an inherited value cannot be read.
unfoldable pub route_scope :
    String → Position → Position → Result DelegationError EffectiveDelegationScope
route_scope routed_to missing worker = err route_denied
route_scope routed_to parent missing = err route_denied
route_scope routed_to inherited worker = err type_error
route_scope routed_to (own parent) inherited =
    if parent.may_delegate && includes parent.targets routed_to
    then err type_error
    else err route_denied
route_scope routed_to (own parent) (own worker) = do
  guard (parent.may_delegate && (includes parent.targets routed_to && not worker.may_delegate))
      route_denied
  derive_effective_delegation_scope parent worker

abbrev is_nil {ℓ} : {A : Type ℓ} → List A → Bool
is_nil [] = true
is_nil (x ∷ xs) = false

module _ (json_sha256 : Value → String) where
  unfoldable pub validate_route_and_digests :
      DelegationEnvelope
      → DelegationOrganization
      → DelegationPermissions
      → Result DelegationError EffectiveDelegationScope
  validate_route_and_digests envelope organization permissions = do
    guard
        (str_eq envelope.organization_digest
            (compute_canonical_digest json_sha256 organization.whole)
          && str_eq envelope.permissions_digest
              (compute_canonical_digest json_sha256 permissions.whole))
        applied_state_stale
    guard
        (str_eq organization.owner permissions.owner
          && (str_eq envelope.delegated_by organization.owner
              && not (str_eq envelope.routed_to envelope.delegated_by)))
        route_denied
    guard (reports_to envelope.delegated_by (role_of envelope.routed_to organization.roles))
        route_denied
    scope ←
        route_scope envelope.routed_to (position_of envelope.delegated_by permissions.positions)
          (position_of envelope.routed_to permissions.positions)
    guard (not (is_nil scope.context_read)) context_denied
    ok scope
