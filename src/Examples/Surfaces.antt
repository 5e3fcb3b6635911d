-- ===== src/Examples/Surfaces.antt =====
-- The capabilities of a position at a concrete scope.
use digital_employee.Common.{if_some}
use digital_employee.Common.{insert_by}
use digital_employee.Common.{sort_by}
use digital_employee.Org.Permissions.{distinct}
use digital_employee.Org.Surface.{split_declared}
use digital_employee.Org.Surface.{tool_permitted}
use digital_employee.Common.{String, Bool, some, [], ◌∷◌, any, true, ◌↔◌, str_eq, ◌≡◌, refl, List}
use digital_employee.Common.Membership.{Any}
use digital_employee.Common.Text.{string_le}
use digital_employee.Org.Surface.{
  DeclaredCapability, ScopeTools, mcp_tool, skill_tool, network_mode, is_granted, deny_code,
  intersect_effective_surface,
}
use digital_employee.Org.Surface.Split.{IsGranted, intersect_effective_surface-splits}

abbrev tools : ScopeTools
tools = record { allow = "search" ∷ "mail" ∷ []; deny = some ("mail" ∷ []) }

abbrev declared : List DeclaredCapability
declared =
    record { kind = mcp_tool; id = "search" }
    ∷ record { kind = skill_tool; id = "mail" }
    ∷ record { kind = network_mode; id = "open" }
    ∷ []

abbrev is_mail : DeclaredCapability → Bool
is_mail c = str_eq c.id "mail"

abbrev is_skill_code : String → Bool
is_skill_code s = str_eq s "capability_skill_tool_denied"

intersect_effective_surface-splits_example :
    let surface = intersect_effective_surface string_le declared tools in
    ((any is_mail surface.allow ≡ true)
      ↔ Any (λ c. (is_mail c ≡ true) × IsGranted tools c) declared)
    × ((any (λ d. is_mail d.capability) surface.deny ≡ true)
        ↔ Any (λ c. (is_mail c ≡ true) × (IsGranted tools c → ⊥)) declared)
    × ((any is_skill_code surface.codes ≡ true)
        ↔ Any (λ c. (is_skill_code (deny_code c.kind) ≡ true) × (IsGranted tools c → ⊥)) declared)
intersect_effective_surface-splits_example =
    intersect_effective_surface-splits string_le tools declared is_mail is_skill_code

-- Denied although it is on the list of allowed tools.
mail_denied :
    (intersect_effective_surface string_le declared tools).codes
    ≡ "capability_skill_tool_denied" ∷ []
unfolding intersect_effective_surface sort_by distinct split_declared is_granted tool_permitted
    if_some insert_by deny_code
mail_denied = refl
