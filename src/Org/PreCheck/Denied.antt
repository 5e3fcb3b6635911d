-- ===== src/Org/PreCheck/Denied.antt =====
-- When the pre-check lets a turn go on, and what it puts on record when it does not.
use digital_employee.Common.Dict.{get, includes, inherited_names}
use digital_employee.Common.Membership.{Among, includes_iff}
use digital_employee.Org.Permissions.Scopes.{
  MayRead, MayCall, context_decision-allowed_iff, tool_decision-allowed_iff,
}
use digital_employee.Common.{
  ◌⊎◌, inl, inr, Option-cases, Bool-cases, if_some, String, true, Option, none, some, List, [], ◌∷◌,
  ◌≡◌, ◌↔◌, refl, All, if_cases,
}
use digital_employee.Org.Permissions.{
  PositionPermissions, lookup, OrganizationPermissions, DenialCode, PermissionDecision, allowed,
  denied, context_decision, tool_decision, PermissionGate, create_permission_gate, check_position,
  evaluate_context_read, evaluate_tool_call,
}
use digital_employee.Org.PreCheck.{
  unless_denied, check_reads, check_tools, then_tools, denial_of, pre_check, Denial,
}

unless_denied-none :
    (d : PermissionDecision) (gate : PermissionGate) (rest : Option DenialCode × PermissionGate)
    → (unless_denied d gate rest).0 ≡ none
    → (d ≡ allowed) × (rest.0 ≡ none)
unfolding unless_denied
unless_denied-none allowed gate rest h = (refl, h)
unless_denied-none (denied code redirect_to) gate rest h = cc

then_tools-none :
    (permissions : OrganizationPermissions) (position_id : String) (tools : List String)
    (r : Option DenialCode × PermissionGate)
    → (then_tools permissions position_id tools r).0 ≡ none
    → (r.0 ≡ none) × ((check_tools permissions position_id tools r.1).0 ≡ none)
unfolding then_tools
then_tools-none permissions position_id tools (none, gate) h = (refl, h)
then_tools-none permissions position_id tools (some code, gate) h = cc

denial_of-none : (r : Option DenialCode × PermissionGate) → denial_of r ≡ none → r.0 ≡ none
unfolding denial_of
denial_of-none (none, gate) h = refl
denial_of-none (some code, gate) h = cc

denial_of-allowed : (r : Option DenialCode × PermissionGate) → r.0 ≡ none → denial_of r ≡ none
unfolding denial_of
denial_of-allowed (none, gate) h = refl
denial_of-allowed (some code, gate) h = cc

then_tools-allowed :
    (permissions : OrganizationPermissions) (position_id : String) (tools : List String)
    (r : Option DenialCode × PermissionGate)
    → r.0 ≡ none
    → ((gate : PermissionGate) → (check_tools permissions position_id tools gate).0 ≡ none)
    → (then_tools permissions position_id tools r).0 ≡ none
unfolding then_tools
then_tools-allowed permissions position_id tools (none, gate) h k = k gate
then_tools-allowed permissions position_id tools (some code, gate) h k = cc

All-map :
    (P Q : String → Type 0) → ((x : String) → P x → Q x) → (xs : List String) → All P xs → All Q xs
All-map P Q f [] h = tt
All-map P Q f (x ∷ xs) h = (f x h.0, All-map P Q f xs h.1)

module _ (permissions : OrganizationPermissions) (position_id : String) where
  abbrev AllRead : List String → Type 0
  AllRead = All (λ requested. context_decision permissions position_id requested ≡ allowed)

  abbrev AllCallable : List String → Type 0
  AllCallable = All (λ tool. tool_decision permissions position_id tool ≡ allowed)

  check_reads-allowed :
      (reads : List String) (gate : PermissionGate)
      → AllRead reads
      → (check_reads permissions position_id reads gate).0 ≡ none
  unfolding check_reads evaluate_context_read unless_denied
  check_reads-allowed [] gate h = refl
  check_reads-allowed (r ∷ reads) gate h = rw h.0 (check_reads-allowed reads _ h.1)

  check_reads-none :
      (reads : List String) (gate : PermissionGate)
      → (check_reads permissions position_id reads gate).0 ≡ none
      → AllRead reads
  unfolding check_reads evaluate_context_read
  check_reads-none [] gate h = tt
  check_reads-none (r ∷ reads) gate h =
      let (a, rest) = unless_denied-none _ _ _ h in (a, check_reads-none reads _ rest)

  check_tools-allowed :
      (tools : List String) (gate : PermissionGate)
      → AllCallable tools
      → (check_tools permissions position_id tools gate).0 ≡ none
  unfolding check_tools evaluate_tool_call unless_denied
  check_tools-allowed [] gate h = refl
  check_tools-allowed (t ∷ tools) gate h = rw h.0 (check_tools-allowed tools _ h.1)

  check_tools-none :
      (tools : List String) (gate : PermissionGate)
      → (check_tools permissions position_id tools gate).0 ≡ none
      → AllCallable tools
  unfolding check_tools evaluate_tool_call
  check_tools-none [] gate h = tt
  check_tools-none (t ∷ tools) gate h =
      let (a, rest) = unless_denied-none _ _ _ h in (a, check_tools-none tools _ rest)

  check_tools_same :
      (tools : List String) (gate gate' : PermissionGate)
      → (check_tools permissions position_id tools gate).0 ≡ none
      → (check_tools permissions position_id tools gate').0 ≡ none
  check_tools_same tools gate gate' h =
      check_tools-allowed tools gate' (check_tools-none tools gate h)

  passes_iff :
      (reads tools : List String)
      → pre_check permissions position_id reads tools ≡ none
        ↔ ((check_position permissions position_id ≡ true) × AllRead reads × AllCallable tools)
  unfolding pre_check
  passes_iff reads tools = (passes, passed)
    where
      checks : Option DenialCode × PermissionGate
      checks =
          then_tools permissions position_id tools
            (check_reads permissions position_id reads create_permission_gate)

      passes :
          pre_check permissions position_id reads tools ≡ none
          → (check_position permissions position_id ≡ true) × AllRead reads × AllCallable tools
      passes =
          if_cases
            (λ (o : Option Denial).
              o ≡ none
              → (check_position permissions position_id ≡ true) × AllRead reads × AllCallable tools)
            (check_position permissions position_id) _ _
            (λ known h.
              let (r, t) =
                then_tools-none permissions position_id tools _ (denial_of-none checks h) in
              (known, check_reads-none reads _ r, check_tools-none tools _ t))
            (λ unknown h. cc)

      passed :
          (check_position permissions position_id ≡ true) × AllRead reads × AllCallable tools
          → pre_check permissions position_id reads tools ≡ none
      passed (known, r, t) = rw known (
          denial_of-allowed checks (
            then_tools-allowed permissions position_id tools _
              (check_reads-allowed reads create_permission_gate r)
              (λ gate. check_tools-allowed tools gate t)))

  -- The position has an entry, or lacks one and is called like a member of every object.
  abbrev pub IsListed : Type 0
  IsListed =
      ((found : PositionPermissions) × (get position_id permissions.positions ≡ some found))
      ⊎ ((get position_id permissions.positions ≡ none) × Among position_id inherited_names)

  check_position-IsListed : check_position permissions position_id ≡ true → IsListed
  unfolding check_position lookup if_some
  check_position-IsListed = elim (Option-cases (get position_id permissions.positions)) [
    | inr found ↦ λ h. inl found
    | inl n ↦ elim (Bool-cases (includes inherited_names position_id)) [
      | inl i ↦ λ h. inr (n, (includes_iff inherited_names position_id).0 i)
      | inr i ↦ rw n (rw i (λ h. cc h))
    ]
  ]

  IsListed-check_position : IsListed → check_position permissions position_id ≡ true
  unfolding check_position lookup if_some
  IsListed-check_position (inl (found, g)) = rw g refl
  IsListed-check_position (inr (n, i)) =
      rw n (rw ((includes_iff inherited_names position_id).1 i) refl)

  -- The pre-check lets the turn go on exactly where every read is of a portable path within a scope of
  -- the position's own entry, every tool is one that this entry allows, and the position has an entry or
  -- a name that every object inherits: such a name passes although the artifact lacks it, if it asks for
  -- no read and no tool.
  pub pre_check-none_iff :
      (reads tools : List String)
      → pre_check permissions position_id reads tools ≡ none ↔ (
          IsListed
          × All (MayRead permissions position_id) reads
          × All (MayCall permissions position_id) tools)
  pre_check-none_iff reads tools = (
    λ h.
        let (known, r, t) = (passes_iff reads tools).0 h in
        (
          check_position-IsListed known,
          All-map _ _ (λ q. (context_decision-allowed_iff permissions position_id q).0) reads r,
          All-map _ _ (λ q. (tool_decision-allowed_iff permissions position_id q).0) tools t,
        ),
    λ (listed, r, t). (passes_iff reads tools).1 (
      IsListed-check_position listed,
      All-map _ _ (λ q. (context_decision-allowed_iff permissions position_id q).1) reads r,
      All-map _ _ (λ q. (tool_decision-allowed_iff permissions position_id q).1) tools t,
    ),
  )
