-- ===== src/Runner/ReplayGuard/Shape.antt =====
-- packages/core/src/runner-replay-guard.ts: the shape of a claim. `canonical_bytes` is the number
-- of bytes that a canonical base64url text encodes, and `none` for any other text.
use digital_employee.Common.{
  ℕ, suc, String, Bool, true, false, ◌&&◌, ◌||◌, Option, none, some, leb, ◌==◌, if◌then◌else◌,
  if_some,
}
use digital_employee.Common.Text.{utf16_length, every_char, is_alphanumeric, is_empty}
use digital_employee.Common.Value.{Value, Fields, member}
use Prim.Native.Char.{code}

pub record RunnerReplayClaim : Type 0 where
  pub runner_id : String
  pub task_id : String
  pub nonce : String
  pub fencing_token : ℕ
  pub expires_at : String

-- CLAIM_ID_PATTERN's class after the first character.
abbrev is_claim_id_char : ℕ → Bool
is_claim_id_char c = is_alphanumeric c || c == 46 || c == 95 || c == 58 || c == 47 || c == 45

unfoldable pub is_claim_id : String → Bool
is_claim_id String.[] = false
is_claim_id (String.◌∷◌ c s) =
    is_alphanumeric (code c) && every_char is_claim_id_char s && leb (utf16_length s) 199

unfoldable pub is_base64url : String → Bool
is_base64url s =
    (if is_empty s then false else true)
    && every_char (λ c. is_alphanumeric c || c == 95 || c == 45) s

unfoldable pub count_fields : Fields → ℕ
count_fields Fields.end = 0
count_fields (Fields.field k v fs) = suc (count_fields fs)

module _ (canonical_bytes : String → Option ℕ) where
  unfoldable pub is_nonce : String → Bool
  is_nonce nonce =
      is_base64url nonce && if_some (canonical_bytes nonce) (λ n. leb 16 n && leb n 64) false

  checked : String → String → String → ℕ → String → Option RunnerReplayClaim
  checked runner_id task_id nonce fencing_token expires_at =
      if is_claim_id runner_id && is_claim_id task_id && is_nonce nonce && leb 1 fencing_token
      then some (record {
        runner_id = runner_id;
        task_id = task_id;
        nonce = nonce;
        fencing_token = fencing_token;
        expires_at = expires_at;
      })
      else none

  -- The types of the five fields. A fencing token must be a safe integer.
  typed : Value → Value → Value → Value → Value → Option RunnerReplayClaim
  typed (Value.str runner) (Value.str task) (Value.str nonce) (Value.num token)
        (Value.str expires) =
      checked runner task nonce token expires
  typed _ _ _ _ _ = none

  -- An object of exactly the five fields.
  unfoldable pub parse_claim : Value → Option RunnerReplayClaim
  unfolding typed checked
  parse_claim (Value.obj fields) =
      if count_fields fields == 5
      then typed (member "runnerId" fields) (member "taskId" fields) (member "nonce" fields)
          (member "fencingToken" fields) (member "expiresAt" fields)
      else none
  parse_claim _ = none
