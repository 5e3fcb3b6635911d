-- ===== src/Org/Permissions/Scopes.antt =====
-- Which reads and calls a position is allowed.
use digital_employee.Common.Dict.{includes, inherited_names}
use digital_employee.Common.{
  String, Bool, true, false, none, some, ◌≡◌, ◌↔◌, inl, inr, refl, sym, ◌∙◌, if◌then◌else◌, if_some,
  Bool-cases, Option-cases, any,
}
use digital_employee.Common.Dict.{get}
use digital_employee.Common.Membership.{Any, Among, any-Any, Any-any, includes_iff}
use digital_employee.Org.Permissions.Within.{IsWithin, covers-IsWithin, IsWithin-covers}
use digital_employee.Org.Paths.{normalize_context_path}
use digital_employee.Org.Permissions.{
  lookup, tool_authority, context_access, PositionPermissions, OrganizationPermissions,
  PermissionDecision, allowed, denied, context_decision, tool_decision, check_position, covers,
  evaluate_context_access, evaluate_tool_authority, context_denied, authority_denied,
}

module _ (permissions : OrganizationPermissions) (position_id : String) where
  -- The position has an entry of its own, the path has a portable form, and that is what one of the
  -- entry's scopes names, or lies below it.
  abbrev pub MayRead : String → Type 0
  MayRead requested =
      (found : PositionPermissions) × (path : String) × (get position_id permissions.positions
        ≡ some found)
      × (normalize_context_path requested ≡ some path)
      × Any (IsWithin path) found.read

  -- The position has an entry of its own, and the tool is one of those that it allows.
  abbrev pub MayCall : String → Type 0
  MayCall tool =
      (found : PositionPermissions) × (get position_id permissions.positions ≡ some found)
      × Among tool found.tools_allow

  covered_iff :
      (requested : String)
      → context_decision permissions position_id requested ≡ allowed ↔ (
          (found : PositionPermissions) × (path : String) × (get position_id permissions.positions
            ≡ some found)
          × (normalize_context_path requested ≡ some path)
          × (any (covers path) found.read ≡ true))
  unfolding context_decision evaluate_context_access context_access lookup if_some
  covered_iff requested = (allows, λ (found, path, f, n, c). rw f (rw n (rw c refl)))
    where
      no_entry :
          {d : PermissionDecision} → d ≡ denied context_denied permissions.owner → d ≡ allowed → ⊥
      no_entry p q = cc

      covered :
          (b : Bool)
          → (if b then allowed else denied context_denied permissions.owner) ≡ allowed
          → b ≡ true
      covered true p = refl
      covered false p = cc

      allows :
          context_decision permissions position_id requested ≡ allowed
          → (found : PositionPermissions) × (path : String) × (get position_id permissions.positions
              ≡ some found)
            × (normalize_context_path requested ≡ some path)
            × (any (covers path) found.read ≡ true)
      allows h = elim (Option-cases (get position_id permissions.positions)) [
        | inl g ↦ elim (Bool-cases (includes inherited_names position_id)) [
          | inl i ↦ absurd (no_entry (rw g (rw i refl)) h)
          | inr i ↦ absurd (no_entry (rw g (rw i refl)) h)
        ]
        | inr (found, g) ↦ elim (Option-cases (normalize_context_path requested)) [
          | inl n ↦ absurd (no_entry (rw g (rw n refl)) h)
          | inr (path, n) ↦ (
            found,
            path,
            g,
            n,
            covered (any (covers path) found.read) (sym (rw g (rw n refl)) ∙ h),
          )
        ]
      ]

  -- A read is allowed exactly where the position has an entry of its own, the path has a portable form,
  -- and one of the entry's scopes is "./", or names this form, or a directory above it.
  pub context_decision-allowed_iff :
      (requested : String)
      → context_decision permissions position_id requested ≡ allowed ↔ MayRead requested
  context_decision-allowed_iff requested = (
    λ h.
        let (found, path, g, n, c) = (covered_iff requested).0 h in
        (
          found,
          path,
          g,
          n,
          any-Any (covers path) (IsWithin path) found.read (covers-IsWithin path) c,
        ),
    λ (found, path, g, n, c). (covered_iff requested).1 (
      found,
      path,
      g,
      n,
      Any-any (covers path) (IsWithin path) found.read (IsWithin-covers path) c,
    ),
  )

  -- A tool may be called exactly where the position has an entry of its own that allows it.
  pub tool_decision-allowed_iff :
      (tool : String) → tool_decision permissions position_id tool ≡ allowed ↔ MayCall tool
  unfolding tool_decision evaluate_tool_authority tool_authority lookup if_some
  tool_decision-allowed_iff tool =
      (allows, λ (found, g, c). rw g (rw ((includes_iff found.tools_allow tool).1 c) refl))
    where
      no_entry :
          {d : PermissionDecision} → d ≡ denied authority_denied permissions.owner → d ≡ allowed → ⊥
      no_entry p q = cc

      listed :
          (b : Bool)
          → (if b then allowed else denied authority_denied permissions.owner) ≡ allowed
          → b ≡ true
      listed true p = refl
      listed false p = cc

      allows : tool_decision permissions position_id tool ≡ allowed → MayCall tool
      allows h = elim (Option-cases (get position_id permissions.positions)) [
        | inl g ↦ elim (Bool-cases (includes inherited_names position_id)) [
          | inl i ↦ absurd (no_entry (rw g (rw i refl)) h)
          | inr i ↦ absurd (no_entry (rw g (rw i refl)) h)
        ]
        | inr (found, g) ↦ (
          found,
          g,
          (includes_iff found.tools_allow tool).0
              (listed (includes found.tools_allow tool) (sym (rw g refl) ∙ h)),
        )
      ]

  -- A position that the artifact lacks, but whose name every object inherits, passes the check of
  -- the position; all that it asks for is denied.
  pub check_position-inherited :
      get position_id permissions.positions ≡ none
      → includes inherited_names position_id ≡ true
      → (check_position permissions position_id ≡ true)
        × ((requested : String)
            → context_decision permissions position_id requested
              ≡ denied context_denied permissions.owner)
        × ((tool : String)
            → tool_decision permissions position_id tool
              ≡ denied authority_denied permissions.owner)
  unfolding check_position context_decision evaluate_context_access context_access tool_decision
      evaluate_tool_authority tool_authority lookup if_some
  check_position-inherited g i = rw g (rw i (refl, λ requested. refl, λ tool. refl))
