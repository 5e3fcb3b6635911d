-- ===== src/Org/Surface.antt =====
-- packages/core/src/effective-surface.ts: what of the declared capabilities of a position is in effect.
-- `localeCompare` is the runtime's: `not_after a b` is `a.localeCompare(b) <= 0`.
pub mod Split
use digital_employee.Common.{
  String, Bool, true, false, ◌&&◌, not, Option, none, some, List, [], ◌∷◌, map, str_eq, sort_by,
  if◌then◌else◌, if_some,
}
use digital_employee.Common.Dict.{includes}
use digital_employee.Common.Text.{string_le}
use digital_employee.Org.Permissions.{distinct}

pub data CapabilityKind : Type 0 where
  mcp_tool skill_tool network_mode : CapabilityKind

pub record DeclaredCapability : Type 0 where
  pub kind : CapabilityKind
  pub id : String

pub record ScopeTools : Type 0 where
  pub allow : List String
  pub deny : Option (List String)

pub record DeniedCapability : Type 0 where
  pub capability : DeclaredCapability
  pub code : String

pub record EffectiveSurface : Type 0 where
  pub allow : List DeclaredCapability
  pub deny : List DeniedCapability
  pub codes : List String

abbrev kind_text : CapabilityKind → String
kind_text mcp_tool = "mcp_tool"
kind_text skill_tool = "skill_tool"
kind_text network_mode = "network_mode"

unfoldable pub tool_permitted : String → ScopeTools → Bool
tool_permitted id scope =
    if if_some scope.deny (λ deny. includes deny id) false then false else includes scope.allow id

unfoldable pub deny_code : CapabilityKind → String
deny_code skill_tool = "capability_skill_tool_denied"
deny_code network_mode = "capability_network_unenforceable"
deny_code mcp_tool = "mcp_scope_denied"

-- The test of the loop: a network mode is allowed as it is.
unfoldable pub is_granted : ScopeTools → DeclaredCapability → Bool
is_granted tools capability = granted capability.kind
  where
    granted : CapabilityKind → Bool
    granted network_mode = true
    granted mcp_tool = tool_permitted capability.id tools
    granted skill_tool = tool_permitted capability.id tools

-- The loop over the declared capabilities: those that are allowed, and those that are denied.
unfoldable pub split_declared :
    ScopeTools → List DeclaredCapability → List DeclaredCapability × List DeniedCapability
split_declared tools [] = ([], [])
split_declared tools (capability ∷ declared) =
    let (allow, deny) = split_declared tools declared in
    if is_granted tools capability
    then (capability ∷ allow, deny)
    else (allow, record { capability = capability; code = deny_code capability.kind } ∷ deny)

module _ (not_after : String → String → Bool) where
  unfoldable pub compare_capability : DeclaredCapability → DeclaredCapability → Bool
  compare_capability left right =
      if str_eq (kind_text left.kind) (kind_text right.kind)
      then not_after left.id right.id
      else not_after (kind_text left.kind) (kind_text right.kind)

  unfoldable pub compare_denied : DeniedCapability → DeniedCapability → Bool
  compare_denied left right = compare_capability left.capability right.capability

  unfoldable pub intersect_effective_surface :
      List DeclaredCapability → ScopeTools → EffectiveSurface
  intersect_effective_surface declared tools =
      let (allow, deny) = split_declared tools declared in
      record {
        allow = sort_by compare_capability allow;
        deny = sort_by compare_denied deny;
        codes = sort_by string_le (distinct [] (map (λ d. d.code) (sort_by compare_denied deny)));
      }
