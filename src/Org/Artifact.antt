-- ===== src/Org/Artifact.antt =====
-- packages/engine/src/org-permissions.ts: the validator of the permissions artifact. The error is the
-- detail of the TypeError. A position named "__proto__", which sets the prototype of the result in
-- place of an entry, is left out.
pub mod Valid
use digital_employee.Common.{
  String, Bool, true, false, ◌&&◌, ◌||◌, not, Option, none, some, List, [], ◌∷◌, str_eq,
  if◌then◌else◌, if_some,
}
use digital_employee.Common.Dict.{Dict}
use digital_employee.Common.Result.{Result, ok, err, guard, ◌>>=◌, ◌>>◌}
use digital_employee.Common.Text.{is_empty, concat}
use digital_employee.Common.Value.{Value, Fields, Items, member}
use digital_employee.Org.Permissions.{
  PositionMode, read_only, approval_required, PositionPermissions, OrganizationPermissions,
}

pub data PermissionTier : Type 0 where
  owner worker : PermissionTier

-- Its `writes` are "deny".
pub record AuthorityScope : Type 0 where
  pub tools_allow : List String
  pub tools_deny : List String
  pub delegation_allow : Bool
  pub targets : List String
  pub escalate_to : Option String

-- A validated entry, whose `position` is its key.
pub record PositionEntry : Type 0 where
  pub tier : PermissionTier
  pub mode : Option PositionMode
  pub read : List String
  pub authority : AuthorityScope

pub record PermissionsArtifact : Type 0 where
  pub business : String
  pub owner : String
  pub positions : Dict PositionEntry

-- The detail of a position.
abbrev detail : String → String → String
detail kind position_id = concat (kind ∷ position_id ∷ [])

unfoldable pub require_object : String → Value → Result String Fields
require_object e (Value.obj fs) = ok fs
require_object e _ = err e

unfoldable pub require_text : String → Value → Result String String
require_text e (Value.str s) = if is_empty s then err e else ok s
require_text e _ = err e

-- The texts of an array, none of which is empty.
unfoldable pub require_items : String → Items → Result String (List String)
require_items e Items.nil = ok []
require_items e (Items.cons v items) = do
  s ← require_text e v
  rest ← require_items e items
  ok (s ∷ rest)

unfoldable pub require_texts : String → Value → Result String (List String)
require_texts e (Value.arr items) = require_items e items
require_texts e _ = err e

unfoldable pub equals_text : String → Value → Bool
equals_text t (Value.str s) = str_eq s t
equals_text t _ = false

unfoldable pub tier_of : String → Value → Result String PermissionTier
tier_of e v =
    if equals_text "owner" v then ok owner else if equals_text "worker" v then ok worker else err e

unfoldable pub mode_of : String → Value → Result String (Option PositionMode)
mode_of e Value.undefined = ok none
mode_of e v =
    if equals_text "read_only" v
    then ok (some read_only)
    else if equals_text "approval_required" v
    then ok (some approval_required)
    else err e

unfoldable pub boolean_of : String → Value → Result String Bool
boolean_of e (Value.bool b) = ok b
boolean_of e _ = err e

unfoldable pub escalation_of : String → Value → Result String (Option String)
escalation_of e Value.null = ok none
escalation_of e (Value.str s) = ok (some s)
escalation_of e _ = err e

unfoldable pub authority_scope_of : String → Value → Result String AuthorityScope
authority_scope_of id value = do
  authority ← require_object (detail "authority_scope:" id) value
  guard (equals_text "deny" (member "writes" authority)) (detail "writes:" id)
  tools ← require_object (detail "tools:" id) (member "tools" authority)
  tools_allow ← require_texts (detail "tools_allow:" id) (member "allow" tools)
  tools_deny ← require_texts (detail "tools_deny:" id) (member "deny" tools)
  delegation ← require_object (detail "delegation:" id) (member "delegation" authority)
  delegation_allow ← boolean_of (detail "delegation_allow:" id) (member "allow" delegation)
  targets ← require_texts (detail "delegation_targets:" id) (member "targets" delegation)
  escalate_to ← escalation_of (detail "delegation_escalate:" id) (member "escalateTo" delegation)
  ok (record {
    tools_allow = tools_allow;
    tools_deny = tools_deny;
    delegation_allow = delegation_allow;
    targets = targets;
    escalate_to = escalate_to;
  })

-- One turn of the loop over the positions.
unfoldable pub validate_position : String → Value → Result String PositionEntry
validate_position id value = do
  p ← require_object (detail "position:" id) value
  guard (equals_text id (member "position" p)) (detail "position_mismatch:" id)
  tier ← tier_of (detail "tier:" id) (member "tier" p)
  mode ← mode_of (detail "mode:" id) (member "mode" p)
  context_scope ← require_object (detail "context_scope:" id) (member "contextScope" p)
  read ← require_texts (detail "context_scope_read:" id) (member "read" context_scope)
  authority ← authority_scope_of id (member "authorityScope" p)
  ok (record { tier = tier; mode = mode; read = read; authority = authority })

unfoldable pub validate_positions : Fields → Result String (Dict PositionEntry)
validate_positions Fields.end = ok []
validate_positions (Fields.field id value fields) = do
  entry ← validate_position id value
  rest ← validate_positions fields
  ok ((id, entry) ∷ rest)

unfoldable pub validate_organization_permissions_artifact :
    Value → Result String PermissionsArtifact
validate_organization_permissions_artifact value = do
  artifact ← require_object "not_an_object" value
  guard (equals_text "org-permissions.v1" (member "schemaVersion" artifact)) "schema_version"
  business ← require_text "business" (member "business" artifact)
  owner_id ← require_text "owner" (member "owner" artifact)
  fields ← require_object "positions" (member "positions" artifact)
  positions ← validate_positions fields
  ok (record { business = business; owner = owner_id; positions = positions })
