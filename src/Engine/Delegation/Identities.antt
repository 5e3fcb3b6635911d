-- ===== src/Engine/Delegation/Identities.antt =====
-- The identifiers and digests of a delegation.
use digital_employee.Common.{ℕ, String, Bool, ◌&&◌, ◌||◌, not, if◌then◌else◌, leb, ◌==◌}
use digital_employee.Common.Result.{Result, ok, err}
use digital_employee.Common.Text.{
  is_blank, utf8_length, every_char, starts_with, drop, utf16_length,
}
use digital_employee.Common.Value.{Value}
use digital_employee.Engine.Delegation.Errors.{DelegationError, envelope_invalid}

-- `[\u0000-\u001f\u007f]`
abbrev pub is_control : ℕ → Bool
is_control c = leb c 31 || c == 127

unfoldable pub is_identifier : String → Bool
is_identifier s =
    not (is_blank s) && (leb (utf8_length s) 256 && every_char (λ c. not (is_control c)) s)

unfoldable pub require_id : Value → Result DelegationError String
require_id (Value.str s) = if is_identifier s then ok s else err envelope_invalid
require_id _ = err envelope_invalid

-- `[a-f0-9]`
abbrev pub is_hex : ℕ → Bool
is_hex c = (leb 97 c && leb c 102) || (leb 48 c && leb c 57)

-- DIGEST_PATTERN
unfoldable pub is_digest : String → Bool
is_digest s =
    starts_with s "sha256:" && (every_char is_hex (drop 7 s) && utf16_length (drop 7 s) == 64)

unfoldable pub require_digest : Value → Result DelegationError String
require_digest (Value.str s) = if is_digest s then ok s else err envelope_invalid
require_digest _ = err envelope_invalid
