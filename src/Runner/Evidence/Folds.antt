-- ===== src/Runner/Evidence/Folds.antt =====
-- Folds over numbers whose order does not matter, as they are of sorted lists.
use digital_employee.Common.{
  ℕ, ◌+◌, min, max, Bool, true, not, Option, none, some, List, [], ◌∷◌, map, leb, if◌then◌else◌,
  is_some, all, sort_by, insert_by, all-sort_by, Bool-cases, ◌≡◌, refl, sym, ◌∙◌, ap, inl, inr, ◌≤◌,
  arith,
}
use digital_employee.Runner.Evidence.Normalize.{earliest, fold, present, fold_present}

-- The order of the numbers does not matter to `f`.
abbrev pub IsLeftCommutative : (ℕ → ℕ → ℕ) → Type 0
IsLeftCommutative f = (a b c : ℕ) → f a (f b c) ≡ f b (f a c)

pub max-IsLeftCommutative : IsLeftCommutative max
max-IsLeftCommutative a b c = omega arith

pub add-IsLeftCommutative : IsLeftCommutative ◌+◌
add-IsLeftCommutative a b c = omega arith

pub all-map {ℓ κ} :
    {A : Type ℓ} {B : Type κ} (p : B → Bool) (g : A → B) (xs : List A)
    → all p (map g xs) ≡ all (λ x. p (g x)) xs
all-map p g [] = refl
all-map p g (x ∷ xs) = ground (arith, all-map p g xs)

module _ {A : Type 0} (le : A → A → Bool) (f : ℕ → ℕ → ℕ) (comm : IsLeftCommutative f) where
  fold-insert_by :
      (g : A → ℕ) (x : A) (ys : List A)
      → fold f 0 (map g (insert_by le x ys)) ≡ f (g x) (fold f 0 (map g ys))
  unfolding fold insert_by
  fold-insert_by g x [] = refl
  fold-insert_by g x (y ∷ ys) = elim (Bool-cases (le x y)) [
    | inl k ↦ rw k refl
    | inr k ↦ rw k (ap (f (g y)) (fold-insert_by g x ys) ∙ comm (g y) (g x) (fold f 0 (map g ys)))
  ]

  fold-sort_by : (g : A → ℕ) (xs : List A) → fold f 0 (map g (sort_by le xs)) ≡ fold f 0 (map g xs)
  unfolding fold sort_by
  fold-sort_by g [] = refl
  fold-sort_by g (x ∷ xs) = fold-insert_by g x (sort_by le xs) ∙ ap (f (g x)) (fold-sort_by g xs)

  -- A value as it is combined.
  abbrev join_present : Option ℕ → ℕ → ℕ
  join_present none n = n
  join_present (some m) n = f m n

  present-fold :
      (o : Option ℕ) (vs : List (Option ℕ))
      → fold f 0 (present (o ∷ vs)) ≡ join_present o (fold f 0 (present vs))
  unfolding present fold
  present-fold none vs = refl
  present-fold (some n) vs = refl

  join_present_comm :
      (a b : Option ℕ) (n : ℕ)
      → join_present a (join_present b n) ≡ join_present b (join_present a n)
  join_present_comm none none n = refl
  join_present_comm none (some b) n = refl
  join_present_comm (some a) none n = refl
  join_present_comm (some a) (some b) n = comm a b n

  present-insert_by :
      (g : A → Option ℕ) (x : A) (ys : List A)
      → fold f 0 (present (map g (insert_by le x ys)))
        ≡ join_present (g x) (fold f 0 (present (map g ys)))
  unfolding insert_by
  present-insert_by g x [] = present-fold (g x) []
  present-insert_by g x (y ∷ ys) = elim (Bool-cases (le x y)) [
    | inl k ↦ rw k (present-fold (g x) (map g (y ∷ ys)))
    | inr k ↦ rw k (
        present-fold (g y) (map g (insert_by le x ys))
        ∙ ap (join_present (g y)) (present-insert_by g x ys)
        ∙ join_present_comm (g y) (g x) (fold f 0 (present (map g ys)))
        ∙ ap (join_present (g x)) (sym (present-fold (g y) (map g ys))))
  ]

  present-sort_by :
      (g : A → Option ℕ) (xs : List A)
      → fold f 0 (present (map g (sort_by le xs))) ≡ fold f 0 (present (map g xs))
  unfolding sort_by
  present-sort_by g [] = refl
  present-sort_by g (x ∷ xs) =
      present-insert_by g x (sort_by le xs)
      ∙ ap (join_present (g x)) (present-sort_by g xs)
      ∙ sym (present-fold (g x) (map g xs))

  abbrev unless_absent : Bool → ℕ → Option ℕ
  unless_absent absent n = if absent then none else some n

  fold_present-all :
      (vs : List (Option ℕ))
      → fold_present f vs ≡ unless_absent (all (λ o. not (is_some o)) vs) (fold f 0 (present vs))
  unfolding fold_present present fold
  fold_present-all [] = refl
  fold_present-all (none ∷ vs) = fold_present-all vs
  fold_present-all (some n ∷ vs) = refl

  fold_present-sort_by :
      (g : A → Option ℕ) (xs : List A)
      → fold_present f (map g (sort_by le xs)) ≡ fold_present f (map g xs)
  fold_present-sort_by g xs =
      let absent : all (λ o. not (is_some o)) (map g (sort_by le xs))
          ≡ all (λ o. not (is_some o)) (map g xs) =
        all-map (λ o. not (is_some o)) g (sort_by le xs)
        ∙ all-sort_by le (λ x. not (is_some (g x))) xs
        ∙ sym (all-map (λ o. not (is_some o)) g xs) in
      fold_present-all (map g (sort_by le xs))
      ∙ rw absent (rw (present-sort_by g xs) (sym (fold_present-all (map g xs))))

  pub fold_sorted :
      (g : A → ℕ) (xs ys : List A) → ys ≡ sort_by le xs → fold f 0 (map g ys) ≡ fold f 0 (map g xs)
  fold_sorted g xs ys e = ap (λ zs. fold f 0 (map g zs)) e ∙ fold-sort_by g xs

  pub fold_present_sorted :
      (g : A → Option ℕ) (xs ys : List A)
      → ys ≡ sort_by le xs
      → fold_present f (map g ys) ≡ fold_present f (map g xs)
  fold_present_sorted g xs ys e = ap (λ zs. fold_present f (map g zs)) e ∙ fold_present-sort_by g xs

-- What bounds some times also bounds them more widely.
all-weaken {ℓ} :
    {A : Type ℓ} (p q : A → Bool) (xs : List A)
    → ((x : A) → p x ≡ true → q x ≡ true)
    → all p xs ≡ true
    → all q xs ≡ true
all-weaken p q [] w h = refl
all-weaken p q (x ∷ xs) w h =
    let first : p x ≡ true = ground (arith, h) in
    let others : all p xs ≡ true = ground (arith, h) in
    ground (arith, w x first, all-weaken p q xs w others)

min-start : (z : ℕ) (ts : List ℕ) → fold min z ts ≤ z
unfolding fold
min-start z [] = omega arith
min-start z (t ∷ ts) = omega (arith, min-start z ts)

min-least : (z : ℕ) (ts : List ℕ) → all (λ t. leb (fold min z ts) t) ts ≡ true
unfolding fold
min-least z [] = refl
min-least z (t ∷ ts) =
    let others : all (λ u. leb (min t (fold min z ts)) u) ts ≡ true =
      all-weaken (λ u. leb (fold min z ts) u) (λ u. leb (min t (fold min z ts)) u) ts
        (λ u k. grind (arith, k)) (min-least z ts) in
    ground (arith, others)

pub earliest-least : (ts : List ℕ) → all (λ t. leb (earliest ts) t) ts ≡ true
unfolding earliest
earliest-least [] = refl
earliest-least (t ∷ ts) = ground (arith, min-start t ts, min-least t ts)

pub fold-latest : (ts : List ℕ) → all (λ t. leb t (fold max 0 ts)) ts ≡ true
unfolding fold
fold-latest [] = refl
fold-latest (t ∷ ts) =
    let others : all (λ u. leb u (max t (fold max 0 ts))) ts ≡ true =
      all-weaken (λ u. leb u (fold max 0 ts)) (λ u. leb u (max t (fold max 0 ts))) ts
        (λ u k. grind (arith, k)) (fold-latest ts) in
    ground (arith, others)
