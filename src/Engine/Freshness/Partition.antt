-- ===== src/Engine/Freshness/Partition.antt =====
-- The two lists partition the entries, and a second pass changes nothing.
use digital_employee.Common.{
  Option-cases, if_some, some, Bool-cases, ℕ, ◌+◌, String, ◌≡◌, refl, arith, false, Option, none,
  List, [], ◌∷◌, length, All, ap, ◌<◌, ◌∙◌, eq_iff, sym, Bool-cases, inl, inr,
}
use digital_employee.Common.Dict.{Dict, get, includes, inherited_names}
use digital_employee.Common.Membership.{Any}
use digital_employee.Engine.Freshness.{
  ContextEvictionReason, ContextEntry, filter_fresh_context, has_expired, digest_differs, clean,
  resolve_expiry_ms, ttl_expiry, finite, unusable, EvictedContextEntry,
}

module _ (parse_date : String → Option ℕ) (now_ms : ℕ) (expected_digests : Dict String) where
  -- The entry has no expiry, or `now_ms` is before it. An absolute expiry alone counts where it is given;
  -- a lifetime counts from the event; a text that is no date gives no expiry.
  pub data IsCurrent (entry : ContextEntry) : Type 0 where
    before :
        (text : String) (expiry : ℕ)
        → entry.expires_at ≡ some text
        → parse_date text ≡ some expiry
        → now_ms < expiry
        → IsCurrent entry
    undated :
        (text : String) → entry.expires_at ≡ some text → parse_date text ≡ none → IsCurrent entry
    lasting : entry.expires_at ≡ none → entry.ttl ≡ none → IsCurrent entry
    alive :
        (lifetime event : ℕ)
        → entry.expires_at ≡ none
        → entry.ttl ≡ some (finite lifetime)
        → parse_date entry.event_at ≡ some event
        → now_ms < event + lifetime
        → IsCurrent entry
    unanchored :
        (lifetime : ℕ)
        → entry.expires_at ≡ none
        → entry.ttl ≡ some (finite lifetime)
        → parse_date entry.event_at ≡ none
        → IsCurrent entry
    unmeasured : entry.expires_at ≡ none → entry.ttl ≡ some unusable → IsCurrent entry

  -- No digest is expected of the artifact, or its own; a name that every object inherits is expected to
  -- be no text.
  pub data IsExpected (entry : ContextEntry) : Type 0 where
    unlisted :
        get entry.artifact_id expected_digests ≡ none
        → includes inherited_names entry.artifact_id ≡ false
        → IsExpected entry
    listed : get entry.artifact_id expected_digests ≡ some entry.source_digest → IsExpected entry

  current_lem :
      (entry : ContextEntry) → has_expired parse_date now_ms entry ≡ false → IsCurrent entry
  unfolding has_expired resolve_expiry_ms if_some ttl_expiry
  current_lem entry = elim (Option-cases entry.expires_at) [
    | inr (text, e) ↦ elim (Option-cases (parse_date text)) [
      | inl n ↦ λ h. undated text e n
      | inr (t, q) ↦ λ h. before text t e q (ground (arith, h, e, q))
    ]
    | inl e ↦ elim (Option-cases entry.ttl) [
      | inl n ↦ λ h. lasting e n
      | inr (unusable, l) ↦ λ h. unmeasured e l
      | inr (finite n, l) ↦ elim (Option-cases (parse_date entry.event_at)) [
        | inl q ↦ λ h. unanchored n e l q
        | inr (a, q) ↦ λ h. alive n a e l q (ground (arith, h, e, l, q))
      ]
    ]
  ]

  IsCurrent-has_expired :
      (entry : ContextEntry) → IsCurrent entry → has_expired parse_date now_ms entry ≡ false
  unfolding has_expired resolve_expiry_ms if_some ttl_expiry
  IsCurrent-has_expired entry (before text t e q l) = rw e (rw q (ground (arith, l)))
  IsCurrent-has_expired entry (undated text e q) = rw e (rw q refl)
  IsCurrent-has_expired entry (lasting e n) = rw e (rw n refl)
  IsCurrent-has_expired entry (alive n a e l q b) = rw e (rw l (rw q (ground (arith, b))))
  IsCurrent-has_expired entry (unanchored n e l q) = rw e (rw l (rw q refl))
  IsCurrent-has_expired entry (unmeasured e l) = rw e (rw l refl)

  expected_lem :
      (entry : ContextEntry) → digest_differs expected_digests entry ≡ false → IsExpected entry
  unfolding digest_differs if_some
  expected_lem entry = elim (Option-cases (get entry.artifact_id expected_digests)) [
    | inl n ↦ rw n (λ h. unlisted n h)
    | inr (d, g) ↦
        rw g (λ h. listed (g ∙ ap (λ x. some x) (ground (arith, h, eq_iff d entry.source_digest))))
  ]

  IsExpected-digest_differs :
      (entry : ContextEntry) → IsExpected entry → digest_differs expected_digests entry ≡ false
  unfolding digest_differs if_some
  IsExpected-digest_differs entry (unlisted n i) = rw n i
  IsExpected-digest_differs entry (listed g) =
      rw g (ground (arith, eq_iff entry.source_digest entry.source_digest))

  abbrev pub IsFresh : ContextEntry → Type 0
  IsFresh entry = IsCurrent entry × IsExpected entry

  abbrev Passes : ContextEntry → Type 0
  Passes entry =
      (has_expired parse_date now_ms entry ≡ false)
      × (digest_differs expected_digests entry ≡ false)

  -- Every entry is kept or evicted, never both.
  pub filter_fresh_context-length :
      (entries : List ContextEntry)
      → length (filter_fresh_context parse_date entries now_ms expected_digests).fresh
          + length (filter_fresh_context parse_date entries now_ms expected_digests).evicted
        ≡ length entries
  unfolding filter_fresh_context
  filter_fresh_context-length [] = omega arith
  filter_fresh_context-length (entry ∷ entries) =
      ground (arith, filter_fresh_context-length entries)

  clean-Passes : (entry : ContextEntry) → Passes entry → Passes (clean entry)
  unfolding has_expired resolve_expiry_ms digest_differs
  clean-Passes entry h = h

  filter_fresh_context-Passes :
      (entries : List ContextEntry)
      → All
          (λ entry. Passes entry × (entry.eviction_reason ≡ none))
          (filter_fresh_context parse_date entries now_ms expected_digests).fresh
  unfolding filter_fresh_context
  filter_fresh_context-Passes [] = tt
  filter_fresh_context-Passes (entry ∷ entries) =
      elim (Bool-cases (has_expired parse_date now_ms entry)) [
        | inl e ↦ rw e (filter_fresh_context-Passes entries)
        | inr e ↦ elim (Bool-cases (digest_differs expected_digests entry)) [
          | inl d ↦ rw e (rw d (filter_fresh_context-Passes entries))
          | inr d ↦
              rw e (rw d ((clean-Passes entry (e, d), refl), filter_fresh_context-Passes entries))
        ]
      ]

  weaken :
      (entry : ContextEntry) (entries : List ContextEntry) (vs : List EvictedContextEntry)
      → All (λ v. Any (λ e. (e.artifact_id ≡ v.id) × (IsFresh e → ⊥)) entries) vs
      → All (λ v. Any (λ e. (e.artifact_id ≡ v.id) × (IsFresh e → ⊥)) (entry ∷ entries)) vs
  weaken entry entries [] h = tt
  weaken entry entries (v ∷ vs) h = (inr h.0, weaken entry entries vs h.1)

  evicted-not-IsFresh :
      (entries : List ContextEntry)
      → All
          (λ v. Any (λ entry. (entry.artifact_id ≡ v.id) × (IsFresh entry → ⊥)) entries)
          (filter_fresh_context parse_date entries now_ms expected_digests).evicted
  unfolding filter_fresh_context
  evicted-not-IsFresh [] = tt
  evicted-not-IsFresh (entry ∷ entries) =
      let older = weaken entry entries _ (evicted-not-IsFresh entries) in
      elim (Bool-cases (has_expired parse_date now_ms entry)) [
        | inl e ↦ rw e (inl (refl, λ f. cc (e, IsCurrent-has_expired entry f.0)), older)
        | inr e ↦ elim (Bool-cases (digest_differs expected_digests entry)) [
          | inl d ↦
              rw e (rw d (inl (refl, λ f. cc (d, IsExpected-digest_differs entry f.1)), older))
          | inr d ↦ rw e (rw d older)
        ]
      ]

  All-IsFresh :
      (entries : List ContextEntry)
      → All (λ entry. Passes entry × (entry.eviction_reason ≡ none)) entries
      → All (λ entry. IsFresh entry × (entry.eviction_reason ≡ none)) entries
  All-IsFresh [] h = tt
  All-IsFresh (entry ∷ entries) h =
      (((current_lem entry h.0.0.0, expected_lem entry h.0.0.1), h.0.1), All-IsFresh entries h.1)

  -- Every entry that is kept is current, is of the digest that is expected of it, and carries no reason
  -- of eviction; and every evicted id is that of an entry which is not so.
  pub filter_fresh_context-IsFresh :
      (entries : List ContextEntry)
      → All
          (λ entry. IsFresh entry × (entry.eviction_reason ≡ none))
          (filter_fresh_context parse_date entries now_ms expected_digests).fresh
        × All
            (λ v. Any (λ entry. (entry.artifact_id ≡ v.id) × (IsFresh entry → ⊥)) entries)
            (filter_fresh_context parse_date entries now_ms expected_digests).evicted
  filter_fresh_context-IsFresh entries =
      (All-IsFresh _ (filter_fresh_context-Passes entries), evicted-not-IsFresh entries)

  -- Fresh entries without a reason are all kept, in order.
  fresh-filter_fresh_context :
      (entries : List ContextEntry)
      → All (λ entry. Passes entry × (entry.eviction_reason ≡ none)) entries
      → filter_fresh_context parse_date entries now_ms expected_digests
        ≡ record { fresh = entries; evicted = [] }
  unfolding filter_fresh_context
  fresh-filter_fresh_context [] h = refl
  fresh-filter_fresh_context (entry ∷ entries) (((e, d), c), t) = rw e (
      rw d (
        rw (fresh-filter_fresh_context entries t) (
          ap
            (λ (r : Option ContextEvictionReason). record {
              fresh = record entry { eviction_reason = r } ∷ entries;
              evicted = [];
            })
            (sym c))))

  -- A second pass at the same time evicts nothing and keeps the order.
  pub filter_fresh_context_idem :
      (entries : List ContextEntry)
      → filter_fresh_context parse_date
          (filter_fresh_context parse_date entries now_ms expected_digests).fresh
          now_ms
          expected_digests
        ≡ record {
          fresh = (filter_fresh_context parse_date entries now_ms expected_digests).fresh;
          evicted = [];
        }
  filter_fresh_context_idem entries =
      fresh-filter_fresh_context _ (filter_fresh_context-Passes entries)
