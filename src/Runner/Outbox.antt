-- ===== src/Runner/Outbox.antt =====
-- packages/core/src/runner-durable-store.ts: InMemoryOutbox. The creation time of an entry is left
-- out; the clock is an argument of `pending`.
pub mod Order
pub mod Delivery
use digital_employee.Common.{
  ℕ, zero, suc, ◌+◌, String, Bool, true, false, ◌&&◌, ◌||◌, not, Option, none, some, List, [], ◌∷◌,
  ◌++◌, ltb, leb, ◌==◌, if◌then◌else◌, if_some, length, take, any,
}
use digital_employee.Common.Text.{is_empty, string_le}

abbrev pub max_size : ℕ
max_size = 4096

abbrev pub max_retries : ℕ
max_retries = 16

pub data OutboxEntryKind : Type 0 where
  event receipt : OutboxEntryKind

pub data OutboxEntryStatus : Type 0 where
  waiting inflight acknowledged dead : OutboxEntryStatus

pub record OutboxEntry : Type 0 where
  pub sequence : ℕ
  pub kind : OutboxEntryKind
  pub task_id : String
  pub fencing_token : ℕ
  pub payload : String
  pub status : OutboxEntryStatus
  pub retry_count : ℕ
  pub next_retry_at : Option String

pub record Outbox : Type 0 where
  pub entries : List OutboxEntry
  pub next_sequence : ℕ

abbrev pub empty_outbox : Outbox
empty_outbox = record { entries = []; next_sequence = 1 }

-- What `append` is given.
pub record NewEntry : Type 0 where
  pub kind : OutboxEntryKind
  pub task_id : String
  pub fencing_token : ℕ
  pub payload : String
  pub next_retry_at : Option String

abbrev pub numbered : ℕ → NewEntry → OutboxEntry
numbered sequence e = record {
  sequence = sequence;
  kind = e.kind;
  task_id = e.task_id;
  fencing_token = e.fencing_token;
  payload = e.payload;
  status = waiting;
  retry_count = 0;
  next_retry_at = e.next_retry_at;
}

-- append: `none` is the overflow error.
unfoldable pub append : NewEntry → Outbox → Option Outbox
append e outbox =
    if leb max_size (length outbox.entries)
    then none
    else some (record {
      entries = outbox.entries ++ numbered outbox.next_sequence e ∷ [];
      next_sequence = suc outbox.next_sequence;
    })

abbrev pub is_settled : OutboxEntryStatus → Bool
is_settled acknowledged = true
is_settled dead = true
is_settled _ = false

-- `e.nextRetryAt && e.nextRetryAt <= now`
abbrev retry_due : String → Option String → Bool
retry_due now none = false
retry_due now (some at) = not (is_empty at) && string_le at now

abbrev pub is_deliverable : String → OutboxEntryStatus → Option String → Bool
is_deliverable now waiting next_retry_at = true
is_deliverable now inflight next_retry_at = retry_due now next_retry_at
is_deliverable now acknowledged next_retry_at = false
is_deliverable now dead next_retry_at = false

unfoldable pub deliverable : String → OutboxEntry → Bool
deliverable now e = is_deliverable now e.status e.next_retry_at

unfoldable pub filter : (OutboxEntry → Bool) → List OutboxEntry → List OutboxEntry
filter p [] = []
filter p (e ∷ es) = let rest = filter p es in if p e then e ∷ rest else rest

-- `sort((a, b) => a.sequence - b.sequence)`, which is stable.
unfoldable pub insert_by_sequence : OutboxEntry → List OutboxEntry → List OutboxEntry
insert_by_sequence e [] = e ∷ []
insert_by_sequence e (x ∷ xs) =
    let rest = insert_by_sequence e xs in if leb e.sequence x.sequence then e ∷ x ∷ xs else x ∷ rest

unfoldable pub sort_by_sequence : List OutboxEntry → List OutboxEntry
sort_by_sequence [] = []
sort_by_sequence (e ∷ es) = insert_by_sequence e (sort_by_sequence es)

unfoldable pub pending : String → ℕ → Outbox → List OutboxEntry
pending now limit outbox = take limit (sort_by_sequence (filter (deliverable now) outbox.entries))

-- The first entry of a sequence number, replaced by `f` of it; the answer is whether `f` accepted.
-- Without one nothing changes and the answer is false.
unfoldable pub update_first :
    ℕ → (OutboxEntry → OutboxEntry × Bool) → List OutboxEntry → List OutboxEntry × Bool
update_first sequence f [] = ([], false)
update_first sequence f (e ∷ es) =
    let (rest, found) = update_first sequence f es in
    if e.sequence == sequence then ((f e).0 ∷ es, (f e).1) else (e ∷ rest, found)

abbrev on_entry : ℕ → (OutboxEntry → OutboxEntry × Bool) → Outbox → Outbox × Bool
on_entry sequence f outbox =
    let (entries, answer) = update_first sequence f outbox.entries in
    (record outbox { entries = entries }, answer)

abbrev pub start_delivery : OutboxEntry → OutboxEntry × Bool
start_delivery e =
    if is_settled e.status then (e, false) else (record e { status = inflight }, true)

abbrev pub retry_delivery : String → OutboxEntry → OutboxEntry × Bool
retry_delivery next_retry_at e =
    if is_settled e.status
    then (e, false)
    else if leb max_retries (suc e.retry_count)
    then (record e { retry_count = suc e.retry_count; status = dead }, false)
    else (
      record e {
        retry_count = suc e.retry_count;
        status = waiting;
        next_retry_at = some next_retry_at;
      },
      true,
    )

abbrev pub acknowledge : OutboxEntry → OutboxEntry × Bool
acknowledge e = (record e { status = acknowledged }, true)

unfoldable pub mark_inflight : ℕ → Outbox → Outbox × Bool
mark_inflight sequence outbox = on_entry sequence start_delivery outbox

unfoldable pub mark_retry : ℕ → String → Outbox → Outbox × Bool
mark_retry sequence next_retry_at outbox = on_entry sequence (retry_delivery next_retry_at) outbox

unfoldable pub ack : ℕ → Outbox → Outbox × Bool
ack sequence outbox = on_entry sequence acknowledge outbox

-- compact: the acknowledged and dead entries go, and are counted.
unfoldable pub compact : Outbox → Outbox × ℕ
compact outbox = (
  record outbox { entries = filter (λ e. not (is_settled e.status)) outbox.entries },
  length (filter (λ e. is_settled e.status) outbox.entries),
)
