-- ===== src/Org/Paths/Plain.antt =====
-- What a path that is let through looks like.
use digital_employee.Common.{
  ℕ, String, Bool, false, ◌||◌, Option, none, some, List, [], ◌∷◌, ◌++◌, ◌≡◌, ◌≢◌, refl, str_eq,
  eq_iff, arith, if_some, All, subst, if_cases, if_some_cases, ◌==◌,
}
use digital_employee.Common.Text.{
  trim, is_empty, includes_char, starts_with, drop, split_on, join, concat, extend,
}
use Prim.Native.Char.{Char, code}
use digital_employee.Org.Paths.{
  normalize_context_path, plain_segments, portable, has_drive, without_dot,
}

-- No character of this code in a text.
Lacks : ℕ → String → Type 0
Lacks x s = includes_char x s ≡ false

Lacks-extend :
    (x : ℕ) (c : Char) (parts : List String)
    → (code c == x) ≡ false
    → All (Lacks x) parts
    → All (Lacks x) (extend c parts)
unfolding Lacks includes_char
Lacks-extend x c [] h k = (ground (arith, h), tt)
Lacks-extend x c (part ∷ parts) h k = (ground (arith, h, k.0), k.1)

-- The parts of a text that was split lack the character that separates them.
split_on-separator : (x : ℕ) (s : String) → All (Lacks x) (split_on x s)
unfolding split_on Lacks includes_char
split_on-separator x String.[] = (refl, tt)
split_on-separator x (String.◌∷◌ c s) =
    if_cases (All (Lacks x)) (code c == x) _ _ (λ h. (refl, split_on-separator x s))
      (λ h. Lacks-extend x c (split_on x s) h (split_on-separator x s))

-- They lack what the text lacks.
split_on-Lacks : (x y : ℕ) (s : String) → Lacks y s → All (Lacks y) (split_on x s)
unfolding split_on Lacks includes_char
split_on-Lacks x y String.[] k = (refl, tt)
split_on-Lacks x y (String.◌∷◌ c s) k =
    let rest = split_on-Lacks x y s (ground (arith, k)) in
    if_cases (All (Lacks y)) (code c == x) _ _ (λ h. (refl, rest))
      (λ h. Lacks-extend y c (split_on x s) (ground (arith, k)) rest)

drop-Lacks : (y n : ℕ) (s : String) → Lacks y s → Lacks y (drop n s)
unfolding drop Lacks includes_char
drop-Lacks y ℕ.zero s k = k
drop-Lacks y (ℕ.suc n) String.[] k = refl
drop-Lacks y (ℕ.suc n) (String.◌∷◌ c s) k = drop-Lacks y n s (ground (arith, k))

without_dot-Lacks : (y : ℕ) (s : String) → Lacks y s → Lacks y (without_dot s)
without_dot-Lacks y s k =
    if_cases (Lacks y) (starts_with s "./") (drop 2 s) s (λ h. drop-Lacks y 2 s k) (λ h. k)

-- A segment that names an entry: it is neither empty nor "." nor "..", and has neither "/" nor "\\".
pub record IsPlain (segment : String) : Type 0 where
  pub not_empty : segment ≢ ""
  pub not_here : segment ≢ "."
  pub not_parent : segment ≢ ".."
  pub no_slash : includes_char 47 segment ≡ false
  pub no_backslash : includes_char 92 segment ≡ false

plain_lem :
    (segment : String)
    → Lacks 47 segment
    → Lacks 92 segment
    → (str_eq segment "" || str_eq segment ".") ≡ false
    → str_eq segment ".." ≡ false
    → IsPlain segment
unfolding Lacks
plain_lem segment l l' h h' = record {
  not_empty = ground (arith, h, eq_iff segment "");
  not_here = ground (arith, h, eq_iff segment ".");
  not_parent = ground (arith, h', eq_iff segment "..");
  no_slash = l;
  no_backslash = l';
}

plain_segments-IsPlain :
    (parts segments : List String)
    → All (Lacks 47) parts
    → All (Lacks 92) parts
    → plain_segments parts ≡ some segments
    → All IsPlain segments
unfolding plain_segments
plain_segments-IsPlain [] segments l l' = λ h. subst (All IsPlain) {x = []} {y = segments} (cc) tt
plain_segments-IsPlain (part ∷ rest) segments l l' =
    if_cases P (str_eq part "" || str_eq part ".") _ _
      (λ skipped. plain_segments-IsPlain rest segments l.1 l'.1)
      (λ named.
        if_cases P (str_eq part "..") _ _ (λ up h. cc)
          (λ inside.
            if_some_cases P (plain_segments rest) _ _
              (λ kept k h.
                subst (All IsPlain) {x = part ∷ kept} {y = segments} (cc) (
                  plain_lem part l.0 l'.0 named inside,
                  plain_segments-IsPlain rest kept l.1 l'.1 k,
                ))
              (λ n h. cc)))
  where
    P : Option (List String) → Type 0
    P o = o ≡ some segments → All IsPlain segments

portable-join :
    (absolute : Bool) (segments : List String) (path : String)
    → portable absolute segments ≡ some path
    → path ≡ concat ("./" ∷ join "/" segments ∷ [])
unfolding portable
portable-join absolute segments path h = ground arith

no_backslash_lem :
    (s : String) → (is_empty s || includes_char 92 s || has_drive s) ≡ false → Lacks 92 s
unfolding Lacks
no_backslash_lem s h = ground (arith, h)

-- A path that is let through is relative to the workspace: it is "./" and entry names joined by "/",
-- of which none is empty, "." or "..", and none has a "/" or a "\\" in it.
pub normalize_context_path-IsPlain :
    (requested path : String)
    → normalize_context_path requested ≡ some path
    → (segments : List String) × (path ≡ concat ("./" ∷ join "/" segments ∷ []))
      × All IsPlain segments
unfolding normalize_context_path
normalize_context_path-IsPlain requested path =
    if_cases P _ none _ (λ refused (h : none ≡ some path). cc)
      (λ readable.
        let kept : Lacks 92 (without_dot (trim requested)) =
          without_dot-Lacks 92 (trim requested) (no_backslash_lem _ readable) in
        if_some_cases P (plain_segments (split_on 47 (without_dot (trim requested)))) _ _
          (λ segments s h. (
            segments,
            portable-join (starts_with (without_dot (trim requested)) "/") segments path h,
            plain_segments-IsPlain _ segments (split_on-separator 47 (without_dot (trim requested)))
                (split_on-Lacks 47 92 (without_dot (trim requested)) kept) s,
          ))
          (λ n (h : none ≡ some path). cc))
  where
    P : Option String → Type 0
    P o =
        (o ≡ some path)
        → (segments : List String) × (path ≡ concat ("./" ∷ join "/" segments ∷ []))
          × All IsPlain segments

-- A request with ".." among its segments is refused.
plain_segments-up : (before after : List String) → plain_segments (before ++ ".." ∷ after) ≡ none
unfolding plain_segments if_some
plain_segments-up [] after = refl
plain_segments-up (part ∷ before) after = ground (arith, plain_segments-up before after)
