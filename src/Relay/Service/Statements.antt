-- ===== src/Relay/Service/Statements.antt =====
-- The database statements of internal/relay/service.go.
use txmill.Base.{
  ℕ, ℤ, pos, negsuc, Bool, true, false, ◌||◌, List, [], ◌∷◌, ◌++◌, Option, none, some, ok, err,
  update_where, int64, ◌==◌, if◌then◌else◌,
}
use txmill.Store.{
  Request, RequestStatus, Attempt, AttemptStatus, Db, Exec, ◌>>◌, Postgres, statement, transaction,
  insert_request as insert_request_stmt, insert_attempt as insert_attempt_stmt, update_request,
  update_attempt, nullif_empty,
}
use txmill.Relay.Enqueuer.{Enqueuer}
use txmill.Relay.Service.Types.{Service, SubmitInput}

abbrev nullif_zero : ℤ → Option ℤ
nullif_zero (pos n) = if n == 0 then none else some (pos n)
nullif_zero (negsuc n) = some (negsuc n)

abbrev pub value_of : Option ℤ → ℤ
value_of none = pos 0
value_of (some v) = v

abbrev pub new_request : Postgres → SubmitInput → Request
new_request pg i = record {
  id = pg.new_id insert_request_stmt;
  app_id = i.app_id;
  chain_id = i.chain_id;
  to_address = i.to;
  call_data = i.call_data;
  value = value_of i.value;
  gas_limit = nullif_zero (int64 i.gas_limit);
  deadline = nullif_zero i.deadline;
  callback_url = nullif_empty i.callback_url;
  callback_metadata = nullif_empty i.callback_metadata;
  status = RequestStatus.pending;
  created_at = pg.now;
  updated_at = pg.now;
}

unfoldable pub insert_request : Postgres → SubmitInput → Exec Db ℕ
insert_request pg i = statement pg insert_request_stmt λ d. (
  ok (pg.new_id insert_request_stmt),
  record d { requests = d.requests ++ new_request pg i ∷ [] },
)

abbrev pub new_attempt : Postgres → ℕ → ℕ → ℕ → ℕ → ℕ → Attempt
new_attempt pg request address nonce hash price = record {
  id = pg.new_id insert_attempt_stmt;
  request_id = request;
  signer_address = address;
  nonce = int64 nonce;
  tx_hash = hash;
  gas_price = price;
  status = AttemptStatus.submitting;
  submitted_at = pg.now;
  block_number = none;
  gas_used = none;
  effective_gas_price = none;
  logs = none;
  revert_reason = none;
}

-- The unique index on `tx_hash` refuses a hash that is there already.
abbrev pub has_hash : ℕ → List Attempt → Bool
has_hash h [] = false
has_hash h (a ∷ rest) = a.tx_hash == h || has_hash h rest

unfoldable pub insert_attempt : Postgres → ℕ → ℕ → ℕ → ℕ → ℕ → Exec Db ℕ
insert_attempt pg request address nonce hash price = statement pg insert_attempt_stmt λ d.
    if has_hash hash d.attempts then (err pg.unique_violation, d) else (
      ok (pg.new_id insert_attempt_stmt),
      record d { attempts = d.attempts ++ new_attempt pg request address nonce hash price ∷ [] },
    )

-- `UPDATE relay_requests SET status`, with the trigger that sets `updated_at`.
abbrev pub set_request_status : Postgres → ℕ → RequestStatus → Db → Db
set_request_status pg id status d = record d {
  requests =
      update_where (λ r. r.id == id) (λ r. record r { status = status; updated_at = pg.now })
        d.requests;
}

abbrev pub set_attempt_status : ℕ → AttemptStatus → Db → Db
set_attempt_status id status d = record d {
  attempts = update_where (λ a. a.id == id) (λ a. record a { status = status }) d.attempts;
}

-- `fireWebhook`: an error of `Enqueue` is dropped.
unfoldable pub fire_webhook : Option Enqueuer → ℕ → Db → Db
fire_webhook none id d = d
fire_webhook (some w) id d = (w.enqueue id d).1

abbrev is_final : RequestStatus → Bool
is_final RequestStatus.rejected = true
is_final RequestStatus.failed = true
is_final _ = false

abbrev fire_if : Bool → Option Enqueuer → ℕ → Db → Db
fire_if true w id d = fire_webhook w id d
fire_if false w id d = d

unfoldable pub mark_request_status : Service → ℕ → RequestStatus → Exec Db Unit
unfolding fire_webhook
mark_request_status s id status =
    statement s.pg update_request
      λ d. (ok tt, fire_if (is_final status) s.webhooks id (set_request_status s.pg id status d))

unfoldable pub mark_attempt_status : Service → ℕ → AttemptStatus → Exec Db Unit
mark_attempt_status s id status =
    statement s.pg update_attempt λ d. (ok tt, set_attempt_status id status d)

unfoldable pub mark_submitted : Service → ℕ → ℕ → Exec Db Unit
mark_submitted s request attempt = transaction s.pg do
  statement s.pg update_attempt λ d. (ok tt, set_attempt_status attempt AttemptStatus.submitted d)
  statement s.pg update_request
      λ d. (ok tt, set_request_status s.pg request RequestStatus.submitted d)
