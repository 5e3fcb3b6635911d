-- ===== src/WriteApproval/Guards.antt =====
-- What an approval is bound to.
use digital_employee.Common.{
  ℕ, String, true, false, ◌≡◌, ◌≢◌, ◌≤◌, ◌↔◌, arith, none, List, eq_iff, if_some,
}
use digital_employee.Common.Result.{ok}
use digital_employee.WriteApproval.{
  InternalEntry, WriteApprovalDecision, decide_entry, WritePreview, classify_approval_guard,
  is_member, retry,
}

-- The guard allows exactly the decisions that are bound to the preview as it stands now, of a key
-- that no success has consumed, in time.
pub classify_approval_guard-none_iff :
    (d : WriteApprovalDecision) (now : ℕ) (keys : List String) (p : WritePreview)
    → classify_approval_guard d now keys p ≡ none ↔ (
        (d.preview_digest ≡ p.preview_digest)
        × (d.attempt ≡ p.attempt)
        × (d.fencing_token ≡ p.fencing_token)
        × (is_member p.idempotency_key keys ≡ false)
        × (now ≤ d.expires_at))
unfolding classify_approval_guard
classify_approval_guard-none_iff d now keys p =
    ground (arith, eq_iff d.preview_digest p.preview_digest, eq_iff d.fencing_token p.fencing_token)

-- A decision that names the attempt before a retry is refused after it: an approval serves one
-- attempt.
pub retry-stale :
    (d : WriteApprovalDecision) (now : ℕ) (keys : List String) (token : String)
    (e e' : InternalEntry)
    → d.attempt ≡ e.preview.attempt
    → d.approved ≡ true
    → decide_entry d now keys (retry token e) ≢ ok e'
unfolding decide_entry classify_approval_guard if_some
retry-stale d now keys token e e' h a p =
    ground (arith, eq_iff d.preview_digest e.preview.preview_digest)
