-- ===== src/Engine/Delegation/Scopes.antt =====
-- The scopes of a delegation: what the parent and the worker may both read and call.
pub mod Distinct
pub mod Order
pub mod Coverage
pub mod Tools
use Prim.Native.String.{◌++◌ as str_append}
use digital_employee.Common.{
  String, Bool, true, false, ◌&&◌, ◌||◌, not, List, [], ◌∷◌, ◌++◌, if◌then◌else◌, if_some, any,
  str_eq, ltb, leb, ◌==◌, sort_by, none, some,
}
use digital_employee.Common.Dict.{includes}
use digital_employee.Common.Result.{Result, ok, err, ◌>>=◌}
use digital_employee.Common.Text.{
  is_empty, includes_char, starts_with, ends_with_char, drop, split_on, join, concat, utf16_length,
  string_le,
}
use digital_employee.Org.Paths.{has_drive, plain_segments}
use digital_employee.Org.Permissions.{distinct}
use digital_employee.Engine.Delegation.Errors.{DelegationError, scope_invalid}

-- What a position may read, call and delegate.
pub record DelegationPositionPermissions : Type 0 where
  pub read : List String
  pub allow : List String
  pub deny : List String
  pub may_delegate : Bool
  pub targets : List String

-- `writes` and `delegation` are always "deny".
pub record EffectiveDelegationScope : Type 0 where
  pub context_read : List String
  pub tool_allow : List String
  pub tool_deny : List String

-- The segments of a scope under "./", and the slash that it ended with.
abbrev pub rooted : Bool → List String → String
rooted directory [] = "./"
rooted directory (segment ∷ segments) =
    concat ("./" ∷ join "/" (segment ∷ segments) ∷ (if directory then "/" else "") ∷ [])

unfoldable pub normalize_scope : String → Result DelegationError String
normalize_scope value =
    if is_empty value || includes_char 92 value || starts_with value "/" || has_drive value
    then err scope_invalid
    else if_some
        (plain_segments (split_on 47 (if starts_with value "./" then drop 2 value else value)))
        (λ segments. ok (rooted (ends_with_char 47 value) segments)) (err scope_invalid)

-- A scope with the slash that ends a directory.
unfoldable pub directory_of : String → String
directory_of scope = if ends_with_char 47 scope then scope else str_append scope "/"

unfoldable pub scope_contains : String → String → Bool
unfolding directory_of
scope_contains container candidate =
    if str_eq container "./"
    then true
    else str_eq candidate container || starts_with candidate (directory_of container)

-- What two scopes share: the one that the other contains.
unfoldable pub common_scope : String → String → List String
common_scope a b = if scope_contains a b then b ∷ [] else if scope_contains b a then a ∷ [] else []

-- The inner loop, over the scopes of the right side.
unfoldable pub intersect_one : String → List String → Result DelegationError (List String)
intersect_one a [] = ok []
intersect_one a (right ∷ rest) = do
  b ← normalize_scope right
  found ← intersect_one a rest
  ok (common_scope a b ++ found)

unfoldable pub intersections : List String → List String → Result DelegationError (List String)
intersections [] right = ok []
intersections (left ∷ rest) right = do
  a ← normalize_scope left
  found ← intersect_one a right
  others ← intersections rest right
  ok (found ++ others)

-- By length, then by text.
unfoldable pub shorter_first : String → String → Bool
shorter_first a b =
    if utf16_length a == utf16_length b
    then string_le a b
    else ltb (utf16_length a) (utf16_length b)

-- The loop that keeps the scopes that none before contains.
unfoldable pub keep_minimal : List String → List String → List String
keep_minimal minimal [] = minimal
keep_minimal minimal (scope ∷ rest) =
    keep_minimal
      (if any (λ entry. scope_contains entry scope) minimal then minimal else minimal ++ scope ∷ [])
      rest

unfoldable pub minimal_scopes : List String → List String
minimal_scopes found =
    sort_by string_le (keep_minimal [] (sort_by shorter_first (distinct [] found)))

unfoldable pub intersect_context_scopes :
    List String → List String → Result DelegationError (List String)
intersect_context_scopes left right = do found ← intersections left right; ok (minimal_scopes found)

-- `xs.filter(p)`
unfoldable pub select : (String → Bool) → List String → List String
select p [] = []
select p (x ∷ xs) = let rest = select p xs in if p x then x ∷ rest else rest

unfoldable pub denied_tools :
    DelegationPositionPermissions → DelegationPositionPermissions → List String
denied_tools parent worker = sort_by string_le (distinct [] (parent.deny ++ worker.deny))

unfoldable pub allowed_tools :
    DelegationPositionPermissions → DelegationPositionPermissions → List String
allowed_tools parent worker = sort_by string_le (
    distinct [] (
      select
        (λ tool. includes worker.allow tool && not (includes (denied_tools parent worker) tool))
        parent.allow))

unfoldable pub derive_effective_delegation_scope :
    DelegationPositionPermissions
    → DelegationPositionPermissions
    → Result DelegationError EffectiveDelegationScope
derive_effective_delegation_scope parent worker = do
  context_read ← intersect_context_scopes parent.read worker.read
  ok (record {
    context_read = context_read;
    tool_allow = allowed_tools parent worker;
    tool_deny = denied_tools parent worker;
  })
