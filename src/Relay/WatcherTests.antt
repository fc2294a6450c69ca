-- ===== src/Relay/WatcherTests.antt =====
-- The theorems on internal/relay/watcher.go and internal/relay/get.go at a concrete database.
use mathlib.Core.List.{Mem}
use txmill.Base.{
  false, true, ◌≢◌, ap, arith, List, ℕ, ◌≡◌, ◌⊎◌, refl, [], ◌∷◌, none, some, Bytes, Bool,
  if◌then◌else◌, Result, ok, Error, pos, All, ◌==◌, length,
}
use txmill.Relay.References.{References, has_request}
use txmill.Relay.Integrity.{history-References}
use txmill.Store.{or_empty, Postgres, Db, Request, RequestStatus, Attempt, AttemptStatus, App}
use txmill.Relay.Get.{Status, Raw, scan, last_attempt, get, get_raw}
use txmill.Relay.Reading.{ShowsLatest, get_owner}
use txmill.Relay.Lifecycle.{Step, submits, ticks_once, history, Fresh, process-history}
use txmill.Relay.Service.{SubmitInput, World, Service, fire_webhook, mark_submitted}
use txmill.Relay.Marks.{status_in}
use txmill.Relay.Watcher.{
  Receipt, ReceiptAnswer, found, not_found, PendingAttempt, Watcher, process, open_batch, tick,
  join_requests, store_receipt,
}
use txmill.Relay.Receipts.{both_set, process_atomic, ticks, ticks_stalled, late_mark_regresses}

abbrev pg : Postgres
pg = record {
  now = 50;
  new_id = λ s. 9;
  failure = λ s. none;
  unique_violation = Error.foreign 23505;
}

abbrev app : App
app = record {
  id = 1;
  name = [];
  treasury_address = 900;
  bearer_token_hash = [];
  pool_size = 1;
  default_callback_url = some (104 ∷ []);
  default_callback_secret = some (115 ∷ []);
  disabled = Bool.false;
  signer_min_balance = pos 0;
  signer_refill_amount = pos 0;
  treasury_min_balance = pos 0;
}

abbrev request_in : RequestStatus → Request
request_in status = record {
  id = 3;
  app_id = 1;
  chain_id = 1;
  to_address = 77;
  call_data = [];
  value = pos 0;
  gas_limit = none;
  deadline = none;
  callback_url = none;
  callback_metadata = none;
  status = status;
  created_at = 10;
  updated_at = 10;
}

abbrev attempt : Attempt
attempt = record {
  id = 4;
  request_id = 3;
  signer_address = 100;
  nonce = pos 7;
  tx_hash = 1007;
  gas_price = 5;
  status = AttemptStatus.submitting;
  submitted_at = 20;
  block_number = none;
  gas_used = none;
  effective_gas_price = none;
  logs = none;
  revert_reason = none;
}

abbrev db : Db
db = record {
  apps = app ∷ [];
  signers = [];
  requests = request_in RequestStatus.pending ∷ [];
  attempts = attempt ∷ record attempt { id = 5; tx_hash = 1008; submitted_at = 21 } ∷ [];
  deliveries = [];
  gas_attempts = [];
}

abbrev receipt : Receipt
receipt = record {
  status = 1;
  block_number = 600;
  gas_used = 25000;
  effective_gas_price = some 5;
  logs = 91 ∷ 93 ∷ [];
}

abbrev pending : PendingAttempt
pending = record {
  attempt_id = 4;
  request_id = 3;
  signer = 100;
  tx_hash = 1007;
  request_to = 77;
  request_data = [];
  request_value = pos 0;
}

abbrev watcher_with : (ℕ → ReceiptAnswer) → Watcher
watcher_with answers = record {
  pg = pg;
  batch_size = 1;
  transaction_receipt = answers;
  call_contract = λ m block. none;
  marshal_logs = λ logs. ok logs;
  webhooks = none;
}

abbrev mined : Watcher
mined = watcher_with (λ hash. found receipt)

-- The node has a receipt for the second transaction alone.
abbrev second_mined : ℕ → ReceiptAnswer
second_mined hash = if hash == 1008 then found receipt else not_found

abbrev service : Service
service = record {
  pg = pg;
  chain = record {
    chain_id = 1;
    estimate_gas = λ m. ok 30000;
    suggest_gas_price = ok 5;
    send_transaction = λ x. none;
    lost_reply = λ x. false;
  };
  backends = record {
    list_signers = λ app. ok (100 ∷ []);
    load_key = λ address. ok 500;
    pending_nonce_at = λ address. ok 7;
  };
  sign_tx = λ chain tx key. ok (record { tx = tx; from = key; hash = tx.nonce });
  webhooks = none;
  unix_now = 0;
  cancelled = none;
}

abbrev logs : Bytes
logs = receipt.logs

process_atomic_example :
    ((process mined pending db).1 ≡ db)
    ⊎ ((r : Receipt) × (logs : Bytes) × (mined.transaction_receipt pending.tx_hash ≡ found r)
        × (mined.marshal_logs r.logs ≡ ok logs)
        × ((process mined pending db).0 ≡ ok tt)
        × ((process mined pending db).1.attempts ≡ (both_set mined pending r logs db).attempts)
        × ((process mined pending db).1.requests ≡ (both_set mined pending r logs db).requests))
process_atomic_example = process_atomic mined pending db

first_open : open_batch 1 db ≡ pending ∷ []
unfolding open_batch join_requests
first_open = refl

batch_stalled :
    All
      (λ p. (watcher_with second_mined).transaction_receipt p.tx_hash ≡ not_found)
      (open_batch 1 db)
batch_stalled = rw first_open (refl, tt)

ticks_stalled_example :
    (ticks 100 pg 1 (λ id. watcher_with second_mined) db ≡ db)
    × (tick pg 1 (λ id. watcher_with second_mined) db ≡ (ok (length (open_batch 1 db)), db))
ticks_stalled_example =
    ticks_stalled 100 pg 1 (λ id. watcher_with second_mined) db refl batch_stalled

late_mark_regresses_example :
    (status_in 3 (process mined pending db).1.requests ≡ some RequestStatus.confirmed)
    × (status_in 3 (mark_submitted service 3 4 (process mined pending db).1).1.requests
        ≡ some RequestStatus.submitted)
late_mark_regresses_example =
    late_mark_regresses service mined pending receipt logs 4 db RequestStatus.pending (λ st. refl)
      (λ st. refl) refl refl refl

abbrev shown : Status
shown = scan (request_in RequestStatus.pending) (last_attempt db 3)

reads : (get pg 3 1 db).0 ≡ ok shown
unfolding get
reads = refl

get_owner_example :
    (r : Request) × Mem r db.requests
    × (r.id ≡ 3)
    × (r.app_id ≡ 1)
    × (shown.request_id ≡ 3)
    × (shown.status ≡ r.status)
    × (shown.callback_metadata ≡ or_empty r.callback_metadata)
    × (shown.updated_at ≡ r.updated_at)
    × ShowsLatest db 3 shown
    × ((get pg 3 1 db).1 ≡ db)
get_owner_example = get_owner pg 3 1 db shown reads

abbrev marshal : Status → Result Bytes
marshal st = ok (st.request_id ∷ [])

abbrev snapshot : Raw
snapshot = record { payload = 3 ∷ []; url = 104 ∷ []; secret = 115 ∷ [] }

snapshot_read : (get_raw pg marshal 3 db).0 ≡ ok snapshot
unfolding get_raw scan
snapshot_read = refl

abbrev single : World
single = record { db = record db { attempts = attempt ∷ [] }; pool = []; sent = [] }

abbrev recorded : World
recorded = record single { db = (process mined pending single.db).1 }

abbrev input : SubmitInput
input = record {
  app_id = 1;
  chain_id = 1;
  to = 77;
  call_data = [];
  value = none;
  gas_limit = 0;
  deadline = pos 0;
  callback_url = [];
  callback_metadata = [];
}

abbrev later : List Step
later = submits service input ∷ ticks_once pg 1 (λ id. mined) ∷ []

records : status_in 3 recorded.db.requests ≡ some RequestStatus.confirmed
unfolding process store_receipt fire_webhook
records = refl

changes : recorded.db ≢ single.db
changes e = absurd (ground (arith, records, ap (λ d. status_in 3 d.requests) e))

later-Fresh : Fresh later recorded
unfolding process store_receipt fire_webhook
later-Fresh = (((λ e. ground arith, tt), (λ e. ground arith, tt)), (tt, tt))

process-history_example :
    status_in 3 (history later recorded).db.requests ≡ some RequestStatus.confirmed
process-history_example =
    process-history mined pending receipt single RequestStatus.pending later refl refl
      ((λ own. refl), tt) changes later-Fresh

history-References_example :
    References (history later single).db
    × ((id : ℕ)
        → has_request id single.db.requests ≡ true
        → has_request id (history later single).db.requests ≡ true)
history-References_example = history-References later single (refl, tt)
