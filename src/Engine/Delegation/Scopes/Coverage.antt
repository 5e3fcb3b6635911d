-- ===== src/Engine/Delegation/Scopes/Coverage.antt =====
-- What the effective scopes of a delegation cover.
use digital_employee.Common.{
  if_some_cases, String, Bool, true, false, ◌&&◌, ◌||◌, ◌≡◌, refl, subst, sym, ◌∙◌, arith, inl, inr,
  List, [], ◌∷◌, ◌++◌, any, any-sort_by, sort_by, sort_by-All, All, All-append, Bool-cases,
  if_cases, if◌then◌else◌,
}
use digital_employee.Common.Text.{
  join, concat, ends_with_char, drop, split_on, starts_with, includes_char, is_empty, string_le,
}
use digital_employee.Common.Prefixes.{Begins-refl, Begins-append}
use digital_employee.Common.Result.{Result, ok, err, bind_inv}
use digital_employee.Org.Permissions.{distinct}
use digital_employee.Engine.Delegation.Errors.{DelegationError}
use digital_employee.Engine.Delegation.Scopes.Distinct.{distinct-any, distinct-All}
use digital_employee.Engine.Delegation.Scopes.{
  normalize_scope, scope_contains, common_scope, intersect_one, intersections, shorter_first,
  keep_minimal, minimal_scopes, intersect_context_scopes, rooted,
}
use digital_employee.Engine.Delegation.Scopes.Order.{
  IsRelative, scope_contains_trans, scope_contains-linear,
}
use digital_employee.Org.Paths.{plain_segments, has_drive}

-- A list of scopes covers a path that one of them contains.
abbrev pub covers_path : String → List String → Bool
covers_path p scopes = any (λ s. scope_contains s p) scopes

-- A declared scope counts as its normal form.
unfoldable pub declared_contains : Result DelegationError String → String → Bool
declared_contains (ok s) p = scope_contains s p
declared_contains (err e) p = false

abbrev pub declares_path : String → List String → Bool
declares_path p raw = any (λ s. declared_contains (normalize_scope s) p) raw

any-append {ℓ} :
    {A : Type ℓ} (f : A → Bool) (xs ys : List A) → any f (xs ++ ys) ≡ (any f xs || any f ys)
any-append f [] ys = refl
any-append f (x ∷ xs) ys = ground (arith, any-append f xs ys)

-- A contained scope adds nothing to its container.
absorbed :
    (a b p : String)
    → IsRelative a
    → scope_contains a b ≡ true
    → scope_contains b p ≡ (scope_contains a p && scope_contains b p)
absorbed a b p r h = elim (Bool-cases (scope_contains b p)) [
  | inl k ↦ ground (arith, k, scope_contains_trans a b p r h k)
  | inr f ↦ ground (arith, f)
]

disjoint :
    (a b p : String)
    → scope_contains a b ≡ false
    → scope_contains b a ≡ false
    → (scope_contains a p && scope_contains b p) ≡ false
disjoint a b p h k = elim (Bool-cases (scope_contains a p)) [
  | inl i ↦ elim (Bool-cases (scope_contains b p)) [
    | inl j ↦ elim (scope_contains-linear a b p i j) [ inl x ↦ cc (x, h) | inr y ↦ cc (y, k) ]
    | inr f ↦ ground (arith, i, f)
  ]
  | inr f ↦ ground (arith, f)
]

-- What two scopes share covers what both cover.
common_scope-covers :
    (a b p : String)
    → IsRelative a
    → IsRelative b
    → covers_path p (common_scope a b) ≡ (scope_contains a p && scope_contains b p)
unfolding common_scope
common_scope-covers a b p ra rb = elim (Bool-cases (scope_contains a b)) [
  | inl h ↦ rw h (ground (arith, absorbed a b p ra h))
  | inr h ↦ rw h (elim (Bool-cases (scope_contains b a)) [
    | inl k ↦ rw k (ground (arith, absorbed b a p rb k))
    | inr k ↦ rw k (sym (disjoint a b p h k))
  ])
]

contained-covers :
    (p s : String) (minimal : List String)
    → All IsRelative minimal
    → any (λ entry. scope_contains entry s) minimal ≡ true
    → scope_contains s p ≡ true
    → covers_path p minimal ≡ true
contained-covers p s [] r h k = cc h
contained-covers p s (entry ∷ minimal) r h k = elim (Bool-cases (scope_contains entry s)) [
  | inl e ↦ ground (arith, scope_contains_trans entry s p r.0 e k)
  | inr e ↦ ground (arith, contained-covers p s minimal r.1 (ground (arith, h, e)) k)
]

keep_minimal-covers :
    (p : String) (minimal rest : List String)
    → All IsRelative minimal
    → All IsRelative rest
    → covers_path p (keep_minimal minimal rest) ≡ (covers_path p minimal || covers_path p rest)
unfolding keep_minimal
keep_minimal-covers p minimal [] r k = ground arith
keep_minimal-covers p minimal (s ∷ rest) r k =
    elim (Bool-cases (any (λ entry. scope_contains entry s) minimal)) [
      | inl old ↦ rw old (elim (Bool-cases (scope_contains s p)) [
        | inl c ↦ ground (
          arith,
          c,
          contained-covers p s minimal r old c,
          keep_minimal-covers p minimal rest r k.1,
        )
        | inr c ↦ ground (arith, c, keep_minimal-covers p minimal rest r k.1)
      ])
      | inr new ↦ rw new (
          ground (
            arith,
            any-append (λ x. scope_contains x p) minimal (s ∷ []),
            keep_minimal-covers p (minimal ++ s ∷ []) rest
                (All-append IsRelative minimal (s ∷ []) r (k.0, tt)) k.1,
          ))
    ]

minimal_scopes-covers :
    (p : String) (found : List String)
    → All IsRelative found
    → covers_path p (minimal_scopes found) ≡ covers_path p found
unfolding minimal_scopes
minimal_scopes-covers p found r =
    any-sort_by string_le (λ s. scope_contains s p) (keep_minimal [] ordered)
    ∙ keep_minimal-covers p [] ordered tt (
        sort_by-All shorter_first IsRelative (distinct [] found)
          (distinct-All IsRelative [] found r))
    ∙ any-sort_by shorter_first (λ s. scope_contains s p) (distinct [] found)
    ∙ ground (arith, distinct-any (λ s. scope_contains s p) [] found)
  where
    ordered : List String
    ordered = sort_by shorter_first (distinct [] found)

rooted-IsRelative :
    (directory : Bool) (segments : List String) → IsRelative (rooted directory segments)
unfolding concat
rooted-IsRelative directory [] = Begins-refl "./"
rooted-IsRelative directory (segment ∷ segments) =
    Begins-append "./"
      (concat (join "/" (segment ∷ segments) ∷ (if directory then "/" else "") ∷ []))

normalize_scope-IsRelative : (raw s : String) → normalize_scope raw ≡ ok s → IsRelative s
unfolding normalize_scope
normalize_scope-IsRelative raw s =
    if_cases P (is_empty raw || includes_char 92 raw || starts_with raw "/" || has_drive raw) _ _
      (λ bad h. cc h)
      (λ good.
        if_some_cases P
          (plain_segments (split_on 47 (if starts_with raw "./" then drop 2 raw else raw))) _ _
          (λ segments e h.
            subst IsRelative {x = rooted (ends_with_char 47 raw) segments} {y = s} (cc h)
              (rooted-IsRelative (ends_with_char 47 raw) segments))
          (λ e h. cc h))
  where
    P : Result DelegationError String → Type 0
    P r = r ≡ ok s → IsRelative s

-- The scopes cover the paths that two tests accept.
record IsMeet (f g : String → Bool) (scopes : List String) : Type 0 where
  relative : All IsRelative scopes
  meets : (p : String) → covers_path p scopes ≡ (f p && g p)

common_scope-IsRelative :
    (a b : String) → IsRelative a → IsRelative b → All IsRelative (common_scope a b)
unfolding common_scope
common_scope-IsRelative a b ra rb =
    if_cases (All IsRelative) (scope_contains a b) _ _ (λ h. (rb, tt))
      (λ h. if_cases (All IsRelative) (scope_contains b a) _ _ (λ k. (ra, tt)) (λ k. tt))

declared :
    (raw s p : String)
    → normalize_scope raw ≡ ok s
    → declared_contains (normalize_scope raw) p ≡ scope_contains s p
unfolding declared_contains
declared raw s p h = rw h refl

intersect_one-IsMeet :
    (a : String) (right found : List String)
    → IsRelative a
    → intersect_one a right ≡ ok found
    → IsMeet (scope_contains a) (λ p. declares_path p right) found
unfolding intersect_one
intersect_one-IsMeet a [] found r h =
    subst (IsMeet (scope_contains a) (λ p. false)) {x = []} {y = found} (cc h)
      (record { relative = tt; meets = λ p. ground arith })
intersect_one-IsMeet a (right ∷ rest) found r h =
    let (b, nb, h') = bind_inv (normalize_scope right) _ h in
    let (others, o, e) = bind_inv (intersect_one a rest) _ h' in
    let ih = intersect_one-IsMeet a rest others r o in
    let rb = normalize_scope-IsRelative right b nb in
    subst (IsMeet (scope_contains a) (λ p. declares_path p (right ∷ rest)))
      {x = common_scope a b ++ others} {y = found} (cc e)
      (record {
        relative =
            All-append IsRelative (common_scope a b) others (common_scope-IsRelative a b r rb)
              ih.relative;
        meets = λ p. ground (
          arith,
          any-append (λ s. scope_contains s p) (common_scope a b) others,
          common_scope-covers a b p r rb,
          ih.meets p,
          declared right b p nb,
        );
      })

intersections-IsMeet :
    (left right found : List String)
    → intersections left right ≡ ok found
    → IsMeet (λ p. declares_path p left) (λ p. declares_path p right) found
unfolding intersections
intersections-IsMeet [] right found h =
    subst (IsMeet (λ p. false) (λ p. declares_path p right)) {x = []} {y = found} (cc h)
      (record { relative = tt; meets = λ p. refl })
intersections-IsMeet (left ∷ rest) right found h =
    let (a, na, h') = bind_inv (normalize_scope left) _ h in
    let (mine, o, k) = bind_inv (intersect_one a right) _ h' in
    let (others, o', e) = bind_inv (intersections rest right) _ k in
    let one = intersect_one-IsMeet a right mine (normalize_scope-IsRelative left a na) o in
    let ih = intersections-IsMeet rest right others o' in
    subst (IsMeet (λ p. declares_path p (left ∷ rest)) (λ p. declares_path p right))
      {x = mine ++ others} {y = found} (cc e)
      (record {
        relative = All-append IsRelative mine others one.relative ih.relative;
        meets = λ p. ground (
          arith,
          any-append (λ s. scope_contains s p) mine others,
          one.meets p,
          ih.meets p,
          declared left a p na,
        );
      })

-- The context scopes of a delegation cover exactly the paths that a scope of the parent and a scope
-- of the worker cover.
pub intersect_context_scopes-covers :
    (left right scopes : List String) (p : String)
    → intersect_context_scopes left right ≡ ok scopes
    → covers_path p scopes ≡ (declares_path p left && declares_path p right)
unfolding intersect_context_scopes
intersect_context_scopes-covers left right scopes p h =
    let (found, f, e) = bind_inv (intersections left right) _ h in
    let meet = intersections-IsMeet left right found f in
    subst (λ s. covers_path p s ≡ (declares_path p left && declares_path p right))
      {x = minimal_scopes found} {y = scopes} (cc e)
      (minimal_scopes-covers p found meet.relative ∙ meet.meets p)
