-- ===== src/Engine/Freshness.antt =====
-- packages/engine/src/context-freshness.ts: which context entries are still fresh. Date.parse is a
-- parameter; `none` is its NaN.
pub mod Partition
use digital_employee.Common.{
  ℕ, ◌+◌, String, Bool, true, false, Option, none, some, List, [], ◌∷◌, str_eq, leb, if◌then◌else◌,
  if_some, not,
}
use digital_employee.Common.Dict.{Dict, get, includes, inherited_names}

pub data ContextEvictionReason : Type 0 where
  expired digest_mismatch : ContextEvictionReason

-- A `ttl` that is negative or not finite is not used.
pub data Ttl : Type 0 where
  finite : ℕ → Ttl
  unusable : Ttl

pub record ContextEntry : Type 0 where
  pub artifact_id : String
  pub source_digest : String
  pub event_at : String
  pub ttl : Option Ttl
  pub expires_at : Option String
  pub eviction_reason : Option ContextEvictionReason

pub record EvictedContextEntry : Type 0 where
  pub id : String
  pub reason : ContextEvictionReason

pub record FilterFreshContextResult : Type 0 where
  pub fresh : List ContextEntry
  pub evicted : List EvictedContextEntry

ttl_expiry : Ttl → Option ℕ → Option ℕ
ttl_expiry (finite n) anchor = if_some anchor (λ a. some (a + n)) none
ttl_expiry unusable anchor = none

-- `expected !== undefined && expected !== entry.sourceDigest`; what every object inherits is no text.
unfoldable pub digest_differs : Dict String → ContextEntry → Bool
digest_differs expected_digests entry =
    if_some (get entry.artifact_id expected_digests)
      (λ expected. not (str_eq expected entry.source_digest))
      (includes inherited_names entry.artifact_id)

-- A fresh entry carries no reason.
abbrev pub clean : ContextEntry → ContextEntry
clean entry = record entry { eviction_reason = none }

module _ (parse_date : String → Option ℕ) where
  -- resolveExpiryMs: the absolute expiry wins over the lifetime.
  unfoldable pub resolve_expiry_ms : ContextEntry → Option ℕ
  unfolding ttl_expiry
  resolve_expiry_ms entry =
      if_some entry.expires_at parse_date
        (if_some entry.ttl (λ ttl. ttl_expiry ttl (parse_date entry.event_at)) none)

  unfoldable pub has_expired : ℕ → ContextEntry → Bool
  has_expired now_ms entry = if_some (resolve_expiry_ms entry) (λ expiry. leb expiry now_ms) false

  unfoldable pub filter_fresh_context :
      List ContextEntry → ℕ → Dict String → FilterFreshContextResult
  filter_fresh_context [] now_ms expected_digests = record { fresh = []; evicted = [] }
  filter_fresh_context (entry ∷ entries) now_ms expected_digests =
      let rest = filter_fresh_context entries now_ms expected_digests in
      if has_expired now_ms entry
      then record rest {
        evicted = record { id = entry.artifact_id; reason = expired } ∷ rest.evicted;
      }
      else if digest_differs expected_digests entry
      then record rest {
        evicted = record { id = entry.artifact_id; reason = digest_mismatch } ∷ rest.evicted;
      }
      else record rest { fresh = clean entry ∷ rest.fresh }
