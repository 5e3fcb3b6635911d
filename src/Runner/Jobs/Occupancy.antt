-- ===== src/Runner/Jobs/Occupancy.antt =====
-- How often an actor stands among others, and in the queue.
use digital_employee.Common.{
  subst, length-append, ℕ, suc, ◌+◌, String, Bool, true, false, Option, none, some, List, [], ◌∷◌,
  ◌++◌, map, ltb, ◌==◌, str_eq, eq_iff, if◌then◌else◌, if_some, length, ◌≡◌, refl, ◌∙◌, inl, inr,
  arith, ◌⊎◌, subst, length-append,
}
use digital_employee.Common.Dict.{includes}
use digital_employee.Runner.Jobs.{
  JobIdentity, QueueEntry, add_actor, delete_actor, splice, delete_actors,
}

unfoldable pub occurrences : String → List String → ℕ
occurrences a [] = 0
occurrences a (x ∷ xs) = if str_eq x a then suc (occurrences a xs) else occurrences a xs

abbrev pub actors : List QueueEntry → List String
actors queue = map (λ e. e.identity.actor_id) queue

pub includes-occurrences :
    (a : String) (xs : List String) → includes xs a ≡ ltb 0 (occurrences a xs)
unfolding occurrences
includes-occurrences a [] = refl
includes-occurrences a (x ∷ xs) = ground (arith, includes-occurrences a xs)

pub occurrences-append :
    (a : String) (xs ys : List String)
    → occurrences a (xs ++ ys) ≡ occurrences a xs + occurrences a ys
unfolding occurrences
occurrences-append a [] ys = omega arith
occurrences-append a (x ∷ xs) ys = ground (arith, occurrences-append a xs ys)

pub occurrences-delete :
    (a b : String) (xs : List String)
    → occurrences a (delete_actor b xs) ≡ (if str_eq b a then 0 else occurrences a xs)
unfolding occurrences delete_actor
occurrences-delete a b [] = ground arith
occurrences-delete a b (x ∷ xs) =
    ground (arith, occurrences-delete a b xs, eq_iff x b, eq_iff x a, eq_iff b a)

pub length-delete :
    (a : String) (xs : List String) → length (delete_actor a xs) + occurrences a xs ≡ length xs
unfolding occurrences delete_actor
length-delete a [] = refl
length-delete a (x ∷ xs) = ground (arith, length-delete a xs)

pub occurrences-add :
    (a b : String) (xs : List String)
    → includes xs b ≡ false
    → occurrences a (add_actor b xs)
      ≡ (if str_eq b a then suc (occurrences a xs) else occurrences a xs)
unfolding occurrences add_actor
occurrences-add a b xs h = rw h (occurrences-append a xs (b ∷ []) ∙ ground arith)

pub length-add :
    (b : String) (xs : List String)
    → includes xs b ≡ false
    → length (add_actor b xs) ≡ suc (length xs)
unfolding add_actor
length-add b xs h = rw h (length-append xs (b ∷ []) ∙ omega arith)

pub occurrences-delete_all :
    (a : String) (queue : List QueueEntry) (xs : List String)
    → occurrences a (delete_actors queue xs)
      ≡ (if ltb 0 (occurrences a (actors queue)) then 0 else occurrences a xs)
unfolding occurrences delete_actors
occurrences-delete_all a [] xs = refl
occurrences-delete_all a (e ∷ queue) xs =
    occurrences-delete_all a queue (delete_actor e.identity.actor_id xs)
    ∙ ground (arith, occurrences-delete a e.identity.actor_id xs)

splice_step :
    (b : Bool) (e : QueueEntry) (queue : List QueueEntry)
    (rest : Option (JobIdentity × List QueueEntry)) (found : JobIdentity × List QueueEntry)
    → (if b
        then some (e.identity, queue)
        else if_some rest (λ (f : JobIdentity × List QueueEntry). some (f.0, e ∷ f.1)) none)
      ≡ some found
    → ((e.identity, queue) ≡ found)
      ⊎ ((f : JobIdentity × List QueueEntry) × (rest ≡ some f) × ((f.0, e ∷ f.1) ≡ found))
unfolding if_some
splice_step true e queue rest found h = inl (cc h)
splice_step false e queue none found h = cc h
splice_step false e queue (some f) found h = inr (f, refl, cc h)

pub occurrences-enqueue :
    (a : String) (e : QueueEntry) (queue : List QueueEntry)
    → occurrences a (actors (queue ++ e ∷ [])) ≡ (
        if str_eq e.identity.actor_id a
        then suc (occurrences a (actors queue))
        else occurrences a (actors queue))
unfolding occurrences
occurrences-enqueue a e [] = refl
occurrences-enqueue a e (d ∷ queue) = ground (arith, occurrences-enqueue a e queue)

-- What a ticket takes out of the queue.
abbrev pub IsTaken : String → List QueueEntry → JobIdentity × List QueueEntry → Type 0
IsTaken a queue found =
    (occurrences a (actors queue) ≡ (
      if str_eq found.0.actor_id a
      then suc (occurrences a (actors found.1))
      else occurrences a (actors found.1)))
    × (length queue ≡ suc (length found.1))

pub splice-IsTaken :
    (a : String) (ticket : ℕ) (queue : List QueueEntry) (found : JobIdentity × List QueueEntry)
    → splice ticket queue ≡ some found
    → IsTaken a queue found
unfolding occurrences splice
splice-IsTaken a ticket [] found h = cc h
splice-IsTaken a ticket (e ∷ queue) found h =
    elim (splice_step (e.ticket == ticket) e queue (splice ticket queue) found h) [
      | inl k ↦ subst (IsTaken a (e ∷ queue)) k (refl, refl)
      | inr (f, r, k) ↦
          let (o, l) = splice-IsTaken a ticket queue f r in
          subst (IsTaken a (e ∷ queue)) k (ground (arith, o), ground (arith, l))
    ]
