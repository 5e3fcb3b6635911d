-- ===== src/Runner/Outbox/Order.antt =====
-- The entries stand in the order of their numbers, which are never used twice.
use digital_employee.Common.{
  ℕ, suc, ◌≤◌, ◌<◌, String, ◌≡◌, refl, arith, Bool, true, false, not, Option, none, some, List, [],
  ◌∷◌, ◌++◌, leb, ◌==◌, length, length-append, All, All-append, Bool-cases, inl, inr, if_cases,
  subst, sym,
}
use digital_employee.Runner.Outbox.{
  Outbox, OutboxEntry, NewEntry, append, numbered, filter, update_first, mark_inflight, mark_retry,
  ack, compact, max_size, max_retries, inflight, is_settled, start_delivery, retry_delivery,
  acknowledge,
}

abbrev Above : ℕ → List OutboxEntry → Type 0
Above n = All (λ e. n < e.sequence)

-- Strictly increasing numbers.
abbrev pub IsOrdered : List OutboxEntry → Type 0
IsOrdered [] = Unit
IsOrdered (e ∷ es) = Above e.sequence es × IsOrdered es

abbrev Below : ℕ → List OutboxEntry → Type 0
Below n = All (λ e. e.sequence < n)

-- An entry that may still be delivered has retries left.
abbrev pub IsPatient : OutboxEntry → Type 0
IsPatient e = is_settled e.status ≡ false → e.retry_count < max_retries

pub record IsWellFormed (outbox : Outbox) : Type 0 where
  pub ordered : IsOrdered outbox.entries
  pub below_next : Below outbox.next_sequence outbox.entries
  pub bounded : length outbox.entries ≤ max_size
  pub patient : All IsPatient outbox.entries

Above-filter :
    (n : ℕ) (p : OutboxEntry → Bool) (es : List OutboxEntry) → Above n es → Above n (filter p es)
unfolding filter
Above-filter n p [] h = tt
Above-filter n p (e ∷ es) h = elim (Bool-cases (p e)) [
  | inl t ↦ rw t (h.0, Above-filter n p es h.1)
  | inr f ↦ rw f (Above-filter n p es h.1)
]

Below-filter :
    (n : ℕ) (p : OutboxEntry → Bool) (es : List OutboxEntry) → Below n es → Below n (filter p es)
unfolding filter
Below-filter n p [] h = tt
Below-filter n p (e ∷ es) h = elim (Bool-cases (p e)) [
  | inl t ↦ rw t (h.0, Below-filter n p es h.1)
  | inr f ↦ rw f (Below-filter n p es h.1)
]

IsOrdered-filter :
    (p : OutboxEntry → Bool) (es : List OutboxEntry) → IsOrdered es → IsOrdered (filter p es)
unfolding filter
IsOrdered-filter p [] h = tt
IsOrdered-filter p (e ∷ es) h = elim (Bool-cases (p e)) [
  | inl t ↦ rw t (Above-filter e.sequence p es h.0, IsOrdered-filter p es h.1)
  | inr f ↦ rw f (IsOrdered-filter p es h.1)
]

length-filter-le :
    (p : OutboxEntry → Bool) (es : List OutboxEntry) → length (filter p es) ≤ length es
unfolding filter
length-filter-le p [] = omega arith
length-filter-le p (e ∷ es) = ground (arith, length-filter-le p es)

Below-IsOrdered-append :
    (es : List OutboxEntry) (e : OutboxEntry)
    → IsOrdered es
    → Below e.sequence es
    → IsOrdered (es ++ e ∷ [])
Below-IsOrdered-append [] e h b = (tt, tt)
Below-IsOrdered-append (x ∷ xs) e h b =
    (All-append _ xs (e ∷ []) h.0 (b.0, tt), Below-IsOrdered-append xs e h.1 b.1)

Below-le : (m n : ℕ) (es : List OutboxEntry) → m ≤ n → Below m es → Below n es
Below-le m n [] l h = tt
Below-le m n (e ∷ es) l h = (omega (arith, h.0), Below-le m n es l h.1)

abbrev after_append : Outbox → Option Outbox → Outbox
after_append outbox none = outbox
after_append outbox (some outbox') = outbox'

append-IsWellFormed :
    (e : NewEntry) (outbox : Outbox)
    → IsWellFormed outbox
    → IsWellFormed (after_append outbox (append e outbox))
unfolding append
append-IsWellFormed e outbox h = elim (Bool-cases (leb max_size (length outbox.entries))) [
  | inl full ↦ rw full h
  | inr room ↦ rw room (record {
    ordered =
        Below-IsOrdered-append outbox.entries (numbered outbox.next_sequence e) h.ordered
          h.below_next;
    below_next =
        All-append (λ x. x.sequence < suc outbox.next_sequence) outbox.entries
          (numbered outbox.next_sequence e ∷ [])
          (Below-le outbox.next_sequence (suc outbox.next_sequence) outbox.entries (omega arith)
            h.below_next)
          (omega arith, tt);
    bounded =
        ground (arith, length-append outbox.entries (numbered outbox.next_sequence e ∷ []), room);
    patient =
        All-append IsPatient outbox.entries (numbered outbox.next_sequence e ∷ []) h.patient
          ((λ u. omega arith), tt);
  })
]

-- An update of an entry that keeps its number and its patience.
record IsSafe (f : OutboxEntry → OutboxEntry × Bool) : Type 0 where
  same_sequence : (e : OutboxEntry) → (f e).0.sequence ≡ e.sequence
  still_patient : (e : OutboxEntry) → IsPatient e → IsPatient (f e).0

module _ (sequence : ℕ) (f : OutboxEntry → OutboxEntry × Bool) (safe : IsSafe f) where
  length-update_first : (es : List OutboxEntry) → length (update_first sequence f es).0 ≡ length es
  unfolding update_first
  length-update_first [] = refl
  length-update_first (e ∷ es) = ground (arith, length-update_first es)

  update_first-All :
      (P : OutboxEntry → Type 0) (es : List OutboxEntry)
      → ((e : OutboxEntry) → P e → P (f e).0)
      → All P es
      → All P (update_first sequence f es).0
  unfolding update_first
  update_first-All P [] k h = tt
  update_first-All P (e ∷ es) k h = elim (Bool-cases (e.sequence == sequence)) [
    | inl s ↦ rw s (k e h.0, h.1)
    | inr s ↦ rw s (h.0, update_first-All P es k h.1)
  ]

  update_first-IsOrdered :
      (es : List OutboxEntry) → IsOrdered es → IsOrdered (update_first sequence f es).0
  unfolding update_first
  update_first-IsOrdered [] h = tt
  update_first-IsOrdered (e ∷ es) h = elim (Bool-cases (e.sequence == sequence)) [
    | inl s ↦ rw s (subst (λ n. Above n es) (sym (safe.same_sequence e)) h.0, h.1)
    | inr s ↦ rw s (
      update_first-All (λ x. e.sequence < x.sequence) es
          (λ x l. subst (λ n. e.sequence < n) (sym (safe.same_sequence x)) l) h.0,
      update_first-IsOrdered es h.1,
    )
  ]

  update_first-IsWellFormed :
      (outbox : Outbox)
      → IsWellFormed outbox
      → IsWellFormed (record outbox { entries = (update_first sequence f outbox.entries).0 })
  update_first-IsWellFormed outbox h = record {
    ordered = update_first-IsOrdered outbox.entries h.ordered;
    below_next =
        update_first-All (λ x. x.sequence < outbox.next_sequence) outbox.entries
          (λ x l. subst (λ n. n < outbox.next_sequence) (sym (safe.same_sequence x)) l)
          h.below_next;
    bounded = omega (arith, length-update_first outbox.entries, h.bounded);
    patient = update_first-All IsPatient outbox.entries safe.still_patient h.patient;
  }

start_delivery-IsSafe : IsSafe start_delivery
start_delivery-IsSafe = record {
  same_sequence = λ e.
      if_cases (λ (r : OutboxEntry × Bool). r.0.sequence ≡ e.sequence) (is_settled e.status)
        (e, false) (record e { status = inflight }, true) (λ s. refl) (λ s. refl);
  still_patient = λ e h.
      if_cases (λ (r : OutboxEntry × Bool). IsPatient r.0) (is_settled e.status) (e, false)
        (record e { status = inflight }, true) (λ s. h) (λ s u. h s);
}

retry_delivery-IsSafe : (at : String) → IsSafe (retry_delivery at)
retry_delivery-IsSafe at = record {
  same_sequence = λ e. elim (Bool-cases (is_settled e.status)) [
    | inl s ↦ rw s refl
    | inr s ↦ rw s (elim (Bool-cases (leb max_retries (suc e.retry_count))) [
      | inl m ↦ rw m refl
      | inr m ↦ rw m refl
    ])
  ];
  still_patient = λ e h. elim (Bool-cases (is_settled e.status)) [
    | inl s ↦ rw s (λ u. h (cc))
    | inr s ↦ rw s (elim (Bool-cases (leb max_retries (suc e.retry_count))) [
      | inl m ↦ rw m (λ u. cc)
      | inr m ↦ rw m (λ u. ground (arith, m))
    ])
  ];
}

acknowledge-IsSafe : IsSafe acknowledge
acknowledge-IsSafe = record { same_sequence = λ e. refl; still_patient = λ e h u. cc }

All-filter :
    (P : OutboxEntry → Type 0) (p : OutboxEntry → Bool) (es : List OutboxEntry)
    → All P es
    → All P (filter p es)
unfolding filter
All-filter P p [] h = tt
All-filter P p (e ∷ es) h = elim (Bool-cases (p e)) [
  | inl t ↦ rw t (h.0, All-filter P p es h.1)
  | inr f ↦ rw f (All-filter P p es h.1)
]

-- The operations that change an outbox.
pub data Operation : Type 0 where
  add : NewEntry → Operation
  deliver acked : ℕ → Operation
  fail : ℕ → String → Operation
  clean : Operation

unfoldable pub apply : Operation → Outbox → Outbox
apply (add e) outbox = after_append outbox (append e outbox)
apply (deliver sequence) outbox = (mark_inflight sequence outbox).0
apply (acked sequence) outbox = (ack sequence outbox).0
apply (fail sequence next_retry_at) outbox = (mark_retry sequence next_retry_at outbox).0
apply clean outbox = (compact outbox).0

-- Every operation keeps the outbox well formed: the numbers increase strictly and stay below the
-- next one, the size is within its bound, and an entry that may still be delivered has been retried
-- fewer than 16 times.
pub apply-IsWellFormed :
    (op : Operation) (outbox : Outbox) → IsWellFormed outbox → IsWellFormed (apply op outbox)
unfolding apply mark_inflight mark_retry ack compact
apply-IsWellFormed (add e) outbox h = append-IsWellFormed e outbox h
apply-IsWellFormed (deliver n) outbox h =
    update_first-IsWellFormed n start_delivery start_delivery-IsSafe outbox h
apply-IsWellFormed (acked n) outbox h =
    update_first-IsWellFormed n acknowledge acknowledge-IsSafe outbox h
apply-IsWellFormed (fail n at) outbox h =
    update_first-IsWellFormed n (retry_delivery at) (retry_delivery-IsSafe at) outbox h
apply-IsWellFormed clean outbox h = record {
  ordered = IsOrdered-filter _ outbox.entries h.ordered;
  below_next = All-filter _ _ outbox.entries h.below_next;
  bounded =
      omega (arith, length-filter-le (λ e. not (is_settled e.status)) outbox.entries, h.bounded);
  patient = All-filter IsPatient _ outbox.entries h.patient;
}
