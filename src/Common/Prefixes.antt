-- ===== src/Common/Prefixes.antt =====
-- The prefixes of one text are a chain.
use Prim.Native.String.{String, ◌++◌}
use Prim.Native.Char.{Char, code}
use mathlib.Core.Path.{◌≡◌, refl, subst}
use mathlib.Core.Logic.{◌⊎◌, inl, inr}
use mathlib.Core.Bool.{Bool, true, false, ◌&&◌}
use native.Mathlib.Omega.{arith}
use text.Mathlib.TextEquality.{Char-path}
use text.Mathlib.TextLemmas.{cons-append, nil-append}
use digital_employee.Common.Tests.{◌==◌}
use digital_employee.Common.Text.{starts_with}

-- `t` begins with `p`.
abbrev pub Begins : String → String → Type 0
Begins t p = starts_with t p ≡ true

and_inv : (b c : Bool) → (b && c) ≡ true → (b ≡ true) × (c ≡ true)
and_inv true c h = (refl, h)
and_inv false c h = cc h

pub Begins-refl : (t : String) → Begins t t
unfolding starts_with
Begins-refl String.[] = refl
Begins-refl (String.◌∷◌ c t) = ground (arith, Begins-refl t)

pub Begins-trans : (t p q : String) → Begins t p → Begins p q → Begins t q
unfolding starts_with
Begins-trans t p String.[] h k = refl
Begins-trans t String.[] (String.◌∷◌ e q) h k = cc k
Begins-trans String.[] (String.◌∷◌ d p) (String.◌∷◌ e q) h k = cc h
Begins-trans (String.◌∷◌ c t) (String.◌∷◌ d p) (String.◌∷◌ e q) h k =
    let (h0, h1) = and_inv (code c == code d) (starts_with t p) h in
    let (k0, k1) = and_inv (code d == code e) (starts_with p q) k in
    ground (arith, Begins-trans t p q h1 k1, h0, k0)

pub Begins-append : (p s : String) → Begins (p ++ s) p
unfolding starts_with
Begins-append String.[] s = refl
Begins-append (String.◌∷◌ c p) s = rw (cons-append c p s) (ground (arith, Begins-append p s))

pub Begins-antisym : (p q : String) → Begins p q → Begins q p → p ≡ q
unfolding starts_with
Begins-antisym String.[] String.[] h k = refl
Begins-antisym String.[] (String.◌∷◌ d q) h k = cc h
Begins-antisym (String.◌∷◌ c p) String.[] h k = cc k
Begins-antisym (String.◌∷◌ c p) (String.◌∷◌ d q) h k =
    let (h0, h1) = and_inv (code c == code d) (starts_with p q) h in
    let (k0, k1) = and_inv (code d == code c) (starts_with q p) k in
    let same : c ≡ d = Char-path c d (ground (arith, h0)) in cc (same, Begins-antisym p q h1 k1)

pub Begins-chain : (t p q : String) → Begins t p → Begins t q → (Begins p q) ⊎ (Begins q p)
unfolding starts_with
Begins-chain t p String.[] h k = inl refl
Begins-chain t String.[] (String.◌∷◌ e q) h k = inr refl
Begins-chain String.[] (String.◌∷◌ d p) (String.◌∷◌ e q) h k = cc h
Begins-chain (String.◌∷◌ c t) (String.◌∷◌ d p) (String.◌∷◌ e q) h k =
    let (h0, h1) = and_inv (code c == code d) (starts_with t p) h in
    let (k0, k1) = and_inv (code c == code e) (starts_with t q) k in
    elim (Begins-chain t p q h1 k1) [
      | inl l ↦ inl (ground (arith, h0, k0, l))
      | inr r ↦ inr (ground (arith, h0, k0, r))
    ]

snoc_nil :
    (q : String) (c e : Char)
    → Begins (String.◌∷◌ c String.[]) (String.◌∷◌ e q)
    → (Begins String.[] (String.◌∷◌ e q)) ⊎ (String.◌∷◌ e q ≡ String.[] ++ (String.◌∷◌ c String.[]))
unfolding starts_with
snoc_nil String.[] c e h =
    let (h0, h1) = and_inv (code c == code e) true h in
    inr (cc (Char-path c e (ground (arith, h0)), nil-append (String.◌∷◌ c String.[])))
snoc_nil (String.◌∷◌ f q) c e h = let (h0, h1) = and_inv (code c == code e) false h in cc h1

-- A prefix of a text and one more character is a prefix of the text, or the whole.
pub Begins-snoc :
    (p q : String) (c : Char)
    → Begins (p ++ (String.◌∷◌ c String.[])) q
    → (Begins p q) ⊎ (q ≡ p ++ (String.◌∷◌ c String.[]))
unfolding starts_with
Begins-snoc p String.[] c h = inl refl
Begins-snoc String.[] (String.◌∷◌ e q) c h =
    snoc_nil q c e (subst (λ t. Begins t (String.◌∷◌ e q)) (nil-append (String.◌∷◌ c String.[])) h)
Begins-snoc (String.◌∷◌ d p) (String.◌∷◌ e q) c h =
    let (h0, h1) =
      and_inv (code d == code e) (starts_with (p ++ (String.◌∷◌ c String.[])) q)
        (subst (λ t. Begins t (String.◌∷◌ e q)) (cons-append d p (String.◌∷◌ c String.[])) h) in
    let same : d ≡ e = Char-path d e (ground (arith, h0)) in
    elim (Begins-snoc p q c h1) [
      | inl l ↦ inl (ground (arith, h0, l))
      | inr r ↦ inr (cc (cons-append d p (String.◌∷◌ c String.[]), same, r))
    ]
