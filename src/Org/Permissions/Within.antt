-- ===== src/Org/Permissions/Within.antt =====
-- What it means that a scope covers a path.
use Prim.Native.String.{◌++◌ as append}
use Prim.Native.Char.{Char, code}
use text.Mathlib.TextEquality.{Char-path}
use text.Mathlib.TextLemmas.{cons-append, nil-append, append-nil, append_assoc}
use digital_employee.Common.{
  String, true, false, ◌≡◌, ◌⊎◌, inl, inr, refl, sym, ◌∙◌, ap, subst, arith, [], ◌∷◌, str_eq,
  eq_iff, Bool-cases,
}
use digital_employee.Common.Text.{starts_with, ends_with_char, drop_last, is_empty, concat}
use digital_employee.Common.Prefixes.{Begins, Begins-append}
use digital_employee.Org.Permissions.{covers}

-- The scope names a directory, with or without a slash at its end.
abbrev pub Names : String → String → Type 0
Names scope dir = (scope ≡ dir) ⊎ (scope ≡ append dir "/")

-- The path is what the scope names, or lies below it; "./" is the whole workspace.
pub data IsWithin (path scope : String) : Type 0 where
  everywhere : scope ≡ "./" → IsWithin path scope
  itself : (dir : String) → Names scope dir → path ≡ dir → IsWithin path scope
  below :
      (dir rest : String)
      → Names scope dir
      → path ≡ append dir (append "/" rest)
      → IsWithin path scope

-- A text that begins with another goes on after it.
Begins-rest : (t p : String) → Begins t p → (rest : String) × (t ≡ append p rest)
unfolding starts_with
Begins-rest t String.[] h = (t, sym (nil-append t))
Begins-rest String.[] (String.◌∷◌ d p) h = cc h
Begins-rest (String.◌∷◌ c t) (String.◌∷◌ d p) h =
    let (rest, e) = Begins-rest t p (ground (arith, h)) in
    let same : c ≡ d = Char-path c d (ground (arith, h)) in
    (rest, cc (same, e, cons-append d p rest))

slash : Char
slash = "/"

code-slash : code slash ≡ 47
unfolding slash
code-slash = refl

is_empty-append : (d : String) → is_empty (append d "/") ≡ false
is_empty-append String.[] = refl
is_empty-append (String.◌∷◌ c d) = rw (cons-append c d "/") refl

ends_with_char-append : (d : String) → ends_with_char 47 (append d "/") ≡ true
unfolding ends_with_char
ends_with_char-append String.[] = refl
ends_with_char-append (String.◌∷◌ c d) =
    rw (cons-append c d "/") (rw (is_empty-append d) (ends_with_char-append d))

drop_last-append : (d : String) → drop_last (append d "/") ≡ d
unfolding drop_last
drop_last-append String.[] = refl
drop_last-append (String.◌∷◌ c d) =
    rw (cons-append c d "/") (rw (is_empty-append d) (ap (String.◌∷◌ c) (drop_last-append d)))

append-drop_last : (s : String) → ends_with_char 47 s ≡ true → s ≡ append (drop_last s) "/"
unfolding ends_with_char drop_last slash
append-drop_last String.[] h = cc h
append-drop_last (String.◌∷◌ c String.[]) h =
    ap (λ x. String.◌∷◌ x String.[]) (Char-path c slash (ground (arith, h, code-slash)))
append-drop_last (String.◌∷◌ c (String.◌∷◌ d s)) h =
    ap (String.◌∷◌ c) (append-drop_last (String.◌∷◌ d s) h)
    ∙ sym (cons-append c (drop_last (String.◌∷◌ d s)) "/")

concat_slash : (s : String) → concat (s ∷ "/" ∷ []) ≡ append s "/"
unfolding concat
concat_slash s = refl

-- Where the tests of the code pass, the path is within the scope.
pub covers-IsWithin : (path scope : String) → covers path scope ≡ true → IsWithin path scope
unfolding covers
covers-IsWithin path scope h = elim (Bool-cases (str_eq scope "./")) [
  | inl e ↦ everywhere (ground (arith, e, eq_iff scope "./"))
  | inr n ↦ elim (Bool-cases (ends_with_char 47 scope)) [
    | inl e ↦ ended e (elim (Bool-cases (str_eq path (drop_last scope))) [
      | inl q ↦ inl q
      | inr q ↦ inr (ground (arith, h, n, e, q))
    ])
    | inr e ↦ open_ended e (elim (Bool-cases (str_eq path scope)) [
      | inl q ↦ inl q
      | inr q ↦ inr (ground (arith, h, n, e, q))
    ])
  ]
]
  where
    ended :
        ends_with_char 47 scope ≡ true
        → (str_eq path (drop_last scope) ≡ true) ⊎ Begins path scope
        → IsWithin path scope
    ended e (inl q) =
        itself (drop_last scope) (inr (append-drop_last scope e))
          (ground (arith, q, eq_iff path (drop_last scope)))
    ended e (inr b) =
        let (rest, t) = Begins-rest path scope b in
        below (drop_last scope) rest (inr (append-drop_last scope e)) (
          t
          ∙ ap (λ x. append x rest) (append-drop_last scope e)
          ∙ append_assoc (drop_last scope) "/" rest)

    open_ended :
        ends_with_char 47 scope ≡ false
        → (str_eq path scope ≡ true) ⊎ Begins path (concat (scope ∷ "/" ∷ []))
        → IsWithin path scope
    open_ended e (inl q) = itself scope (inl refl) (ground (arith, q, eq_iff path scope))
    open_ended e (inr b) =
        let (rest, t) =
          Begins-rest path (append scope "/") (subst (Begins path) (concat_slash scope) b) in
        below scope rest (inl refl) (t ∙ append_assoc scope "/" rest)

ends_slash : (scope dir : String) → scope ≡ append dir "/" → ends_with_char 47 scope ≡ true
ends_slash scope dir e = ap (ends_with_char 47) e ∙ ends_with_char-append dir

begins_lem : (path scope rest : String) → path ≡ append scope rest → Begins path scope
begins_lem path scope rest e = ap (λ t. starts_with t scope) e ∙ Begins-append scope rest

-- A path within the scope passes one of the tests.
pub IsWithin-covers : (path scope : String) → IsWithin path scope → covers path scope ≡ true
unfolding covers
IsWithin-covers path scope (everywhere e) = ground (arith, e, eq_iff scope "./")
IsWithin-covers path scope (itself dir (inl n) q) = elim (Bool-cases (ends_with_char 47 scope)) [
  | inl e ↦ ground (arith, e, begins_lem path scope "" (q ∙ sym n ∙ sym (append-nil scope)))
  | inr e ↦ ground (arith, e, eq_iff path scope, q ∙ sym n)
]
IsWithin-covers path scope (itself dir (inr n) q) =
    let same : path ≡ drop_last scope = q ∙ sym (drop_last-append dir) ∙ ap drop_last (sym n) in
    ground (arith, ends_slash scope dir n, eq_iff path (drop_last scope), same)
IsWithin-covers path scope (below dir rest (inl n) q) =
    elim (Bool-cases (ends_with_char 47 scope)) [
      | inl e ↦ ground (
        arith,
        e,
        begins_lem path scope (append "/" rest) (q ∙ ap (λ x. append x (append "/" rest)) (sym n)),
      )
      | inr e ↦
          let b : Begins path (append scope "/") = begins_lem path (append scope "/") rest (
            q ∙ ap (λ x. append x (append "/" rest)) (sym n) ∙ sym (append_assoc scope "/" rest)) in
          ground (arith, e, subst (Begins path) (sym (concat_slash scope)) b)
    ]
IsWithin-covers path scope (below dir rest (inr n) q) =
    let b : Begins path scope =
      begins_lem path scope rest
        (q ∙ sym (append_assoc dir "/" rest) ∙ ap (λ x. append x rest) (sym n)) in
    ground (arith, ends_slash scope dir n, b)
