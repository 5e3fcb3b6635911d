-- ===== src/Org/Paths.antt =====
-- packages/engine/src/org-permissions.ts: normalizeContextPath, and what it lets through.
pub mod Plain
use digital_employee.Common.{
  ℕ, String, Bool, true, false, ◌&&◌, ◌||◌, Option, none, some, List, [], ◌∷◌, ◌++◌, ◌≡◌, ◌≢◌, refl,
  str_eq, eq_iff, arith, if◌then◌else◌, if_some, leb, All, subst, if_cases, if_some_cases, ◌==◌,
}
use digital_employee.Common.Text.{
  trim, is_empty, includes_char, starts_with, drop, split_on, join, concat,
}
use Prim.Native.Char.{code}

-- `/^[A-Za-z]:/`
abbrev is_letter : ℕ → Bool
is_letter c = (leb 65 c && leb c 90) || (leb 97 c && leb c 122)

unfoldable pub has_drive : String → Bool
has_drive String.[] = false
has_drive (String.◌∷◌ c String.[]) = false
has_drive (String.◌∷◌ c (String.◌∷◌ d s)) = is_letter (code c) && code d == 58

-- The segments that are kept; `none` where one is "..".
unfoldable pub plain_segments : List String → Option (List String)
plain_segments [] = some []
plain_segments (segment ∷ rest) =
    let kept = plain_segments rest in
    if str_eq segment "" || str_eq segment "."
    then kept
    else if str_eq segment ".."
    then none
    else if_some kept (λ segments. some (segment ∷ segments)) none

abbrev pub is_nil {ℓ} : {A : Type ℓ} → List A → Bool
is_nil [] = true
is_nil (x ∷ xs) = false

abbrev pub without_dot : String → String
without_dot trimmed = if starts_with trimmed "./" then drop 2 trimmed else trimmed

-- An absolute path keeps no segment.
unfoldable pub portable : Bool → List String → Option String
portable absolute segments =
    if absolute && (if is_nil segments then false else true)
    then none
    else some (concat ("./" ∷ join "/" segments ∷ []))

-- normalizeContextPath: `none` is the TypeError.
unfoldable pub normalize_context_path : String → Option String
normalize_context_path requested =
    let trimmed = trim requested in
    if is_empty trimmed || includes_char 92 trimmed || has_drive trimmed
    then none
    else if_some (plain_segments (split_on 47 (without_dot trimmed)))
        (portable (starts_with (without_dot trimmed) "/")) none
