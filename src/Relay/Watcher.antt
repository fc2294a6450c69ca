-- ===== src/Relay/Watcher.antt =====
-- internal/relay/watcher.go: a tick reads a batch of open attempts and records their receipts.
use txmill.Base.{
  ℕ, ℤ, pos, ◌+◌, ◌-ℤ◌, ◌^◌, ◌%◌, Bool, true, false, List, [], ◌∷◌, Option, none, some, Bytes,
  Result, ok, err, Error, find, select, take, order_by, update_where, int64, ◌==◌, if◌then◌else◌,
}
use txmill.Store.{
  Request, RequestStatus, Attempt, AttemptStatus, Db, Exec, ◌>>◌, Postgres, statement, transaction,
  update_attempt, update_request, select_attempts, nullif_empty,
}
use txmill.Relay.Chain.{CallMsg}
use txmill.Relay.Enqueuer.{Enqueuer}
use txmill.Relay.Service.{fire_webhook, set_request_status}
use txmill.Relay.Revert.{clean_revert_string}

-- The fields of `types.Receipt` that are read; `status` is 0 after a failed execution.
pub record Receipt : Type 0 where
  pub status : ℕ
  pub block_number : ℕ
  pub gas_used : ℕ
  pub effective_gas_price : Option ℕ
  pub logs : Bytes

-- The answers of `TransactionReceipt`: `ethereum.NotFound` is told from other errors.
pub data ReceiptAnswer : Type 0 where
  found : Receipt → ReceiptAnswer
  not_found : ReceiptAnswer
  failed : Error → ReceiptAnswer

-- `pendingAttempt`
pub record PendingAttempt : Type 0 where
  pub attempt_id : ℕ
  pub request_id : ℕ
  pub signer : ℕ
  pub tx_hash : ℕ
  pub request_to : ℕ
  pub request_data : Bytes
  pub request_value : ℤ

-- `Watcher`, with the answers of the database, the node and the JSON encoder during one call;
-- `call_contract` answers with the text of its error, if it has one.
pub record Watcher : Type 0 where
  pub pg : Postgres
  pub batch_size : ℕ
  pub transaction_receipt : ℕ → ReceiptAnswer
  pub call_contract : CallMsg → ℤ → Option Bytes
  pub marshal_logs : Bytes → Result Bytes
  pub webhooks : Option Enqueuer

abbrev clean : Option Bytes → Bytes
clean none = []
clean (some text) = clean_revert_string text

-- The call is replayed on the state before the block.
unfoldable pub fetch_revert_reason : Watcher → PendingAttempt → ℕ → Bytes
fetch_revert_reason w p block = clean (
    w.call_contract
      (record {
        from = p.signer;
        to = p.request_to;
        value = p.request_value;
        call_data = p.request_data;
      })
      (pos block -ℤ pos 1))

abbrev pub price_or_zero : Option ℕ → ℕ
price_or_zero none = 0
price_or_zero (some price) = price

abbrev pub attempt_outcome : Receipt → AttemptStatus
attempt_outcome r = if r.status == 0 then AttemptStatus.reverted else AttemptStatus.confirmed

abbrev pub request_outcome : Receipt → RequestStatus
request_outcome r = if r.status == 0 then RequestStatus.reverted else RequestStatus.confirmed

abbrev pub reason_of : Watcher → PendingAttempt → Receipt → Bytes
reason_of w p r = if r.status == 0 then fetch_revert_reason w p r.block_number else []

-- `BlockNumber.Int64()` keeps the low 64 bits.
abbrev pub with_receipt : Watcher → PendingAttempt → Receipt → Bytes → Attempt → Attempt
with_receipt w p r logs a = record a {
  status = attempt_outcome r;
  block_number = some (int64 (r.block_number % 2 ^ 64));
  gas_used = some (int64 r.gas_used);
  effective_gas_price = some (price_or_zero r.effective_gas_price);
  logs = some logs;
  revert_reason = nullif_empty (reason_of w p r);
}

abbrev pub set_receipt : Watcher → PendingAttempt → Receipt → Bytes → Db → Db
set_receipt w p r logs d = record d {
  attempts = update_where (λ a. a.id == p.attempt_id) (with_receipt w p r logs) d.attempts;
}

unfoldable pub store_receipt : Watcher → PendingAttempt → Receipt → Bytes → Exec Db Unit
store_receipt w p r logs = transaction w.pg do
  statement w.pg update_attempt λ d. (ok tt, set_receipt w p r logs d)
  statement w.pg update_request
      λ d. (ok tt, set_request_status w.pg p.request_id (request_outcome r) d)

abbrev then_fire : Watcher → ℕ → Result (Unit {0}) × Db → Result (Unit {0}) × Db
then_fire w id (err e, d) = (err e, d)
then_fire w id (ok _, d) = (ok tt, fire_webhook w.webhooks id d)

abbrev record_receipt : Watcher → PendingAttempt → Receipt → Result Bytes → Exec Db Unit
record_receipt w p r (err e) d = (err e, d)
record_receipt w p r (ok logs) d = then_fire w p.request_id (store_receipt w p r logs d)

abbrev handle : Watcher → PendingAttempt → ReceiptAnswer → Exec Db Unit
handle w p not_found d = (ok tt, d)
handle w p (failed e) d = (err e, d)
handle w p (found r) d = record_receipt w p r (w.marshal_logs r.logs) d

unfoldable pub process : Watcher → PendingAttempt → Exec Db Unit
process w p = handle w p (w.transaction_receipt p.tx_hash)

abbrev pub is_open : Attempt → Bool
is_open a = elim a.status [
  | AttemptStatus.submitting ↦ true
  | AttemptStatus.submitted ↦ true
  | AttemptStatus.failed ↦ false
  | AttemptStatus.confirmed ↦ false
  | AttemptStatus.reverted ↦ false
]

abbrev pending_row : Attempt → Request → PendingAttempt
pending_row a r = record {
  attempt_id = a.id;
  request_id = a.request_id;
  signer = a.signer_address;
  tx_hash = a.tx_hash;
  request_to = r.to_address;
  request_data = r.call_data;
  request_value = r.value;
}

abbrev cons_row : Attempt → Option Request → List PendingAttempt → List PendingAttempt
cons_row a none rest = rest
cons_row a (some r) rest = pending_row a r ∷ rest

-- `JOIN relay_requests r ON r.id = a.request_id`
unfoldable pub join_requests : List Request → List Attempt → List PendingAttempt
join_requests requests [] = []
join_requests requests (a ∷ rest) =
    cons_row a (find (λ r. r.id == a.request_id) requests) (join_requests requests rest)

-- The batch of `tick`: the oldest open attempts.
unfoldable pub open_batch : ℕ → Db → List PendingAttempt
unfolding join_requests
open_batch n d =
    take n (join_requests d.requests (order_by (λ a. a.submitted_at) (select is_open d.attempts)))

abbrev count : Result (Unit {0}) → ℕ
count (ok _) = 1
count (err e) = 0

-- The loop: an attempt whose processing fails is logged and not counted. `at` gives each attempt
-- its own answers.
unfoldable pub process_all : (ℕ → Watcher) → List PendingAttempt → Db → ℕ × Db
process_all at [] d = (0, d)
process_all at (p ∷ rest) d =
    let (r, d') = process (at p.attempt_id) p d in
    let (n, d'') = process_all at rest d' in (count r + n, d'')

abbrev counted : ℕ × Db → Result ℕ × Db
counted (n, d) = (ok n, d)

-- `Watcher.tick`
unfoldable pub tick : Postgres → ℕ → (ℕ → Watcher) → Exec Db ℕ
tick pg n at = statement pg select_attempts λ d. counted (process_all at (open_batch n d) d)
