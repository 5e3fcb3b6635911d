-- ===== src/Examples/Replay.antt =====
-- The replay guard on a nonce that comes twice.
use digital_employee.Common.{
  ℕ, String, ◌≢◌, refl, arith, true, Option, none, some, [], ◌∷◌, if◌then◌else◌, str_eq, if_some,
}
use digital_employee.Common.Dict.{get, set}
use digital_employee.Common.Text.{every_char, utf16_length, decimal, concat}
use digital_employee.Common.Result.{ok}
use digital_employee.Common.Value.{Value, Fields, member}
use digital_employee.Runner.ReplayGuard.{
  ReplayGuard, claim, claim_at, decide, sweep, record_claim, nonce_key,
}
use digital_employee.Runner.ReplayGuard.Shape.{
  RunnerReplayClaim, parse_claim, is_claim_id, is_base64url, is_nonce, count_fields,
}
use digital_employee.Runner.ReplayGuard.Replay.{claim-once, claim_all}

abbrev timestamp : String → Option ℕ
timestamp s = if str_eq s "2026-01-01T00:00:00.000Z" then some 1000 else none

abbrev sixteen_bytes : String → Option ℕ
sixteen_bytes s = some 16

abbrev guard : ReplayGuard
guard = record {
  nonce_entries = [];
  task_high_watermarks = [];
  max_entries = 8;
  last_clock_milliseconds = none;
}

abbrev fields : String → ℕ → Fields
fields task token = Fields.field "runnerId" (Value.str "r1") (
    Fields.field "taskId" (Value.str task) (
      Fields.field "nonce" (Value.str "AAAAAAAAAAAAAAAAAAAAAA") (
        Fields.field "fencingToken" (Value.num token)
          (Fields.field "expiresAt" (Value.str "2026-01-01T00:00:00.000Z") Fields.end))))

abbrev parsed : String → ℕ → RunnerReplayClaim
parsed task token = record {
  runner_id = "r1";
  task_id = task;
  nonce = "AAAAAAAAAAAAAAAAAAAAAA";
  fencing_token = token;
  expires_at = "2026-01-01T00:00:00.000Z";
}

claim-once_example :
    (claim timestamp sixteen_bytes (some 20) (Value.obj (fields "t2" 2)) (
      claim_all timestamp sixteen_bytes
        ((some 15, Value.null) ∷ [])
        (claim timestamp sixteen_bytes (some 10) (Value.obj (fields "t1" 1)) guard).0)).1
    ≢ ok true
unfolding claim claim_at parse_claim member is_claim_id is_base64url is_nonce count_fields
    every_char utf16_length decide sweep record_claim nonce_key decimal concat get set if_some
claim-once_example =
    claim-once timestamp sixteen_bytes 10 20 (Value.obj (fields "t1" 1)) (Value.obj (fields "t2" 2))
      (parsed "t1" 1) (parsed "t2" 2) guard 1000 ((some 15, Value.null) ∷ []) refl refl refl refl
      refl (omega arith, tt) (omega arith) refl
