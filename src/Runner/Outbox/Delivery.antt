-- ===== src/Runner/Outbox/Delivery.antt =====
-- What is delivered, and when delivery is over.
use digital_employee.Common.{
  ℕ, String, ◌≡◌, refl, ap, Bool, true, false, not, List, [], ◌∷◌, ◌==◌, Bool-cases, inl, inr, take,
}
use digital_employee.Runner.Outbox.{
  Outbox, OutboxEntry, waiting, inflight, acknowledged, dead, filter, sort_by_sequence,
  update_first, mark_inflight, mark_retry, ack, compact, is_settled, start_delivery, retry_delivery,
  acknowledge, pending, deliverable, is_deliverable,
}

deliverable-unsettled :
    (now : String) (e : OutboxEntry) → deliverable now e ≡ true → is_settled e.status ≡ false
unfolding deliverable
deliverable-unsettled now e =
    elim e.status as (λ s. is_deliverable now s e.next_retry_at ≡ true → is_settled s ≡ false) [
      | waiting ↦ λ h. refl
      | inflight ↦ λ h. refl
      | acknowledged ↦ λ h. cc
      | dead ↦ λ h. cc
    ]

filter-compact :
    (now : String) (es : List OutboxEntry)
    → filter (deliverable now) (filter (λ e. not (is_settled e.status)) es)
      ≡ filter (deliverable now) es
unfolding filter
filter-compact now [] = refl
filter-compact now (e ∷ es) = elim (Bool-cases (is_settled e.status)) [
  | inl s ↦ elim (Bool-cases (deliverable now e)) [
    | inl d ↦ cc (deliverable-unsettled now e d, s)
    | inr d ↦ rw s (rw d (filter-compact now es))
  ]
  | inr s ↦ elim (Bool-cases (deliverable now e)) [
    | inl d ↦ rw s (rw d (ap (◌∷◌ e) (filter-compact now es)))
    | inr d ↦ rw s (rw d (filter-compact now es))
  ]
]

-- A compaction changes nothing of what is delivered, at any time and for any limit.
pub pending-compact :
    (now : String) (limit : ℕ) (outbox : Outbox)
    → pending now limit (compact outbox).0 ≡ pending now limit outbox
unfolding pending compact
pending-compact now limit outbox =
    ap (λ (es : List OutboxEntry). take limit (sort_by_sequence es))
      (filter-compact now outbox.entries)

ack_first :
    (n : ℕ) (f : OutboxEntry → OutboxEntry × Bool) (es : List OutboxEntry)
    → ((e : OutboxEntry) → (f (acknowledge e).0).1 ≡ false)
    → (update_first n f (update_first n acknowledge es).0).1 ≡ false
unfolding update_first
ack_first n f [] k = refl
ack_first n f (e ∷ es) k = elim (Bool-cases (e.sequence == n)) [
  | inl s ↦ rw s (rw s (k e))
  | inr s ↦ rw s (rw s (ack_first n f es k))
]

-- After an acknowledgement of a number neither a delivery nor a retry of that number is accepted.
pub ack-is_final :
    (n : ℕ) (next_retry_at : String) (outbox : Outbox)
    → ((mark_inflight n (ack n outbox).0).1 ≡ false)
      × ((mark_retry n next_retry_at (ack n outbox).0).1 ≡ false)
unfolding mark_inflight mark_retry ack
ack-is_final n next_retry_at outbox = (
  ack_first n start_delivery outbox.entries (λ e. refl),
  ack_first n (retry_delivery next_retry_at) outbox.entries (λ e. refl),
)
