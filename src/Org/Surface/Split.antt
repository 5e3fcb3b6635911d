-- ===== src/Org/Surface/Split.antt =====
-- What is allowed and denied of the declared capabilities.
use digital_employee.Common.Membership.{Any, Among, any-Any, Any-any, includes_iff}
use digital_employee.Common.Dict.{includes}
use digital_employee.Common.{
  Option-cases, none, some, if_some, true, ◌⊎◌, ◌≢◌, ◌↔◌, sym, String, Bool, ◌&&◌, not, List, [],
  ◌∷◌, map, any, any-sort_by, sort_by, Bool-cases, inl, inr, ◌≡◌, refl, ◌∙◌, arith,
}
use digital_employee.Common.Text.{string_le}
use digital_employee.Org.Permissions.{distinct}
use digital_employee.Engine.Delegation.Scopes.Distinct.{distinct-any}
use digital_employee.Org.Surface.{
  mcp_tool, skill_tool, network_mode, tool_permitted, CapabilityKind, DeclaredCapability,
  DeniedCapability, ScopeTools, deny_code, is_granted, split_declared, compare_capability,
  compare_denied, intersect_effective_surface,
}

split_declared-any :
    (tools : ScopeTools) (declared : List DeclaredCapability) (p : DeclaredCapability → Bool)
    (q : DeniedCapability → Bool)
    → (any p (split_declared tools declared).0 ≡ any (λ c. p c && is_granted tools c) declared)
      × (any q (split_declared tools declared).1
          ≡ any
              (λ c.
                q (record { capability = c; code = deny_code c.kind }) && not (is_granted tools c))
              declared)
unfolding split_declared
split_declared-any tools [] p q = (refl, refl)
split_declared-any tools (c ∷ declared) p q =
    let (a, d) = split_declared-any tools declared p q in
    elim (Bool-cases (is_granted tools c)) [
      | inl k ↦ rw k (ground (arith, a, k), ground (arith, d, k))
      | inr k ↦ rw k (ground (arith, a, k), ground (arith, d, k))
    ]

any-map {ℓ κ} :
    {A : Type ℓ} {B : Type κ} (p : B → Bool) (f : A → B) (xs : List A)
    → any p (map f xs) ≡ any (λ x. p (f x)) xs
any-map p f [] = refl
any-map p f (x ∷ xs) = ground (arith, any-map p f xs)

surface_splits :
    (not_after : String → String → Bool) (tools : ScopeTools) (declared : List DeclaredCapability)
    (p : DeclaredCapability → Bool) (s : String → Bool)
    → let surface = intersect_effective_surface not_after declared tools in
      (any p surface.allow ≡ any (λ c. p c && is_granted tools c) declared)
      × (any (λ d. p d.capability) surface.deny
          ≡ any (λ c. p c && not (is_granted tools c)) declared)
      × (any s surface.codes ≡ any (λ c. s (deny_code c.kind) && not (is_granted tools c)) declared)
unfolding intersect_effective_surface
surface_splits not_after tools declared p s =
    let (allow, deny) = split_declared tools declared in
    let split = split_declared-any tools declared in
    let sorted = sort_by (compare_denied not_after) deny in
    (
      any-sort_by (compare_capability not_after) p allow ∙ (split p (λ d. p d.capability)).0,
      any-sort_by (compare_denied not_after) (λ d. p d.capability) deny
          ∙ (split p (λ d. p d.capability)).1,
      any-sort_by string_le s (distinct [] (map (λ d. d.code) sorted))
          ∙ ground (arith, distinct-any s [] (map (λ d. d.code) sorted))
          ∙ any-map s (λ d. d.code) sorted
          ∙ any-sort_by (compare_denied not_after) (λ d. s d.code) deny
          ∙ (split p (λ d. s d.code)).1,
    )

-- What a scope grants: a tool that is on its list and that it does not deny, and every network mode.
pub data IsGranted (tools : ScopeTools) (c : DeclaredCapability) : Type 0 where
  network : c.kind ≡ network_mode → IsGranted tools c
  unrestricted :
      c.kind ≢ network_mode → Among c.id tools.allow → tools.deny ≡ none → IsGranted tools c
  not_denied :
      (deny : List String)
      → c.kind ≢ network_mode
      → Among c.id tools.allow
      → tools.deny ≡ some deny
      → (Among c.id deny → ⊥)
      → IsGranted tools c

permitted_iff :
    (tools : ScopeTools) (c : DeclaredCapability)
    → c.kind ≢ network_mode
    → (tool_permitted c.id tools ≡ true) ↔ IsGranted tools c
unfolding tool_permitted if_some
permitted_iff tools c k = (to, from)
  where
    to : tool_permitted c.id tools ≡ true → IsGranted tools c
    to = elim (Option-cases tools.deny) [
      | inl n ↦ λ h. unrestricted k ((includes_iff tools.allow c.id).0 (sym (rw n refl) ∙ h)) n
      | inr (deny, d) ↦ elim (Bool-cases (includes deny c.id)) [
        | inl i ↦ rw d (rw i (λ h. cc h))
        | inr i ↦ λ h.
            not_denied deny k ((includes_iff tools.allow c.id).0 (sym (rw d (rw i refl)) ∙ h)) d
              (λ a. cc (i, (includes_iff deny c.id).1 a))
      ]
    ]

    from : IsGranted tools c → tool_permitted c.id tools ≡ true
    from (network n) = absurd (k n)
    from (unrestricted k' a n) = rw n ((includes_iff tools.allow c.id).1 a)
    from (not_denied deny k' a d u) = elim (Bool-cases (includes deny c.id)) [
      | inl i ↦ absurd (u ((includes_iff deny c.id).0 i))
      | inr i ↦ rw d (rw i ((includes_iff tools.allow c.id).1 a))
    ]

kind_cases : (k : CapabilityKind) → (k ≡ network_mode) ⊎ (k ≡ mcp_tool) ⊎ (k ≡ skill_tool)
kind_cases network_mode = inl refl
kind_cases mcp_tool = inr (inl refl)
kind_cases skill_tool = inr (inr refl)

is_granted_iff :
    (tools : ScopeTools) (c : DeclaredCapability) → (is_granted tools c ≡ true) ↔ IsGranted tools c
unfolding is_granted
is_granted_iff tools c = elim (kind_cases c.kind) [
  | inl n ↦ (λ h. network n, λ g. rw n refl)
  | inr (inl m) ↦
      let other : c.kind ≢ network_mode = λ e. cc (m, e) in
      (
        λ h. (permitted_iff tools c other).0 (sym (rw m refl) ∙ h),
        λ g. rw m ((permitted_iff tools c other).1 g),
      )
  | inr (inr m) ↦
      let other : c.kind ≢ network_mode = λ e. cc (m, e) in
      (
        λ h. (permitted_iff tools c other).0 (sym (rw m refl) ∙ h),
        λ g. rw m ((permitted_iff tools c other).1 g),
      )
]

-- A test of the granted capabilities, and of the others.
granted_lem :
    (tools : ScopeTools) (declared : List DeclaredCapability) (p : DeclaredCapability → Bool)
    → (any (λ c. p c && is_granted tools c) declared ≡ true)
      ↔ Any (λ c. (p c ≡ true) × IsGranted tools c) declared
granted_lem tools declared p = (
  any-Any (λ c. p c && is_granted tools c) (λ c. (p c ≡ true) × IsGranted tools c) declared
      (λ c h. (ground (arith, h), (is_granted_iff tools c).0 (ground (arith, h)))),
  Any-any (λ c. p c && is_granted tools c) (λ c. (p c ≡ true) × IsGranted tools c) declared
      (λ c h. ground (arith, h.0, (is_granted_iff tools c).1 h.1)),
)

not_granted_lem :
    (tools : ScopeTools) (declared : List DeclaredCapability) (p : DeclaredCapability → Bool)
    → (any (λ c. p c && not (is_granted tools c)) declared ≡ true)
      ↔ Any (λ c. (p c ≡ true) × (IsGranted tools c → ⊥)) declared
not_granted_lem tools declared p = (
  any-Any (λ c. p c && not (is_granted tools c)) (λ c. (p c ≡ true) × (IsGranted tools c → ⊥))
      declared
      (λ c h. (
        ground (arith, h),
        λ g.
            let e : is_granted tools c ≡ true = (is_granted_iff tools c).1 g in
            ground (arith, h, e),
      )),
  Any-any (λ c. p c && not (is_granted tools c)) (λ c. (p c ≡ true) × (IsGranted tools c → ⊥))
      declared
      (λ c (t, u). elim (Bool-cases (is_granted tools c)) [
        | inl g ↦ absurd (u ((is_granted_iff tools c).0 g))
        | inr g ↦ ground (arith, t, g)
      ]),
)

iff_of : {a b : Bool} {P : Type 0} → a ≡ b → (b ≡ true) ↔ P → (a ≡ true) ↔ P
iff_of e (f, g) = (λ h. f (sym e ∙ h), λ h. e ∙ g h)

-- For every test of capabilities: one that passes is allowed exactly when one that passes is declared
-- and granted, and denied exactly when one that passes is declared and not granted; and a code that
-- passes a test is reported exactly when it is the code of a capability that is declared and not
-- granted. Granted is a tool that is on the scope's list and that the scope does not deny, and every
-- network mode, whatever the scope says. So nothing is allowed that is not declared, no declared
-- capability is lost, and a denied tool is never allowed.
pub intersect_effective_surface-splits :
    (not_after : String → String → Bool) (tools : ScopeTools) (declared : List DeclaredCapability)
    (p : DeclaredCapability → Bool) (s : String → Bool)
    → let surface = intersect_effective_surface not_after declared tools in
      ((any p surface.allow ≡ true) ↔ Any (λ c. (p c ≡ true) × IsGranted tools c) declared)
      × ((any (λ d. p d.capability) surface.deny ≡ true)
          ↔ Any (λ c. (p c ≡ true) × (IsGranted tools c → ⊥)) declared)
      × ((any s surface.codes ≡ true)
          ↔ Any (λ c. (s (deny_code c.kind) ≡ true) × (IsGranted tools c → ⊥)) declared)
intersect_effective_surface-splits not_after tools declared p s =
    let (allowed, denied, codes) = surface_splits not_after tools declared p s in
    (
      iff_of allowed (granted_lem tools declared p),
      iff_of denied (not_granted_lem tools declared p),
      iff_of codes (not_granted_lem tools declared (λ c. s (deny_code c.kind))),
    )
