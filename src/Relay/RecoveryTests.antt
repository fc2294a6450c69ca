-- ===== src/Relay/RecoveryTests.antt =====
-- The theorems on internal/relay/recovery.go after a broadcast that was refused.
use txmill.Base.{ℕ, ◌≡◌, refl, [], ◌∷◌, none, ok, Error, pos}
use txmill.Store.{Postgres, Db, Request, RequestStatus, Attempt, AttemptStatus}
use txmill.Relay.Recovery.{RecoveryReport, recover}

abbrev pg : Postgres
pg = record {
  now = 50;
  new_id = λ s. 9;
  failure = λ s. none;
  unique_violation = Error.foreign 23505;
}

abbrev request : ℕ → Request
request id = record {
  id = id;
  app_id = 1;
  chain_id = 1;
  to_address = 77;
  call_data = [];
  value = pos 0;
  gas_limit = none;
  deadline = none;
  callback_url = none;
  callback_metadata = none;
  status = RequestStatus.pending;
  created_at = 10;
  updated_at = 10;
}

abbrev refused : Attempt
refused = record {
  id = 4;
  request_id = 3;
  signer_address = 100;
  nonce = pos 7;
  tx_hash = 1007;
  gas_price = 5;
  status = AttemptStatus.failed;
  submitted_at = 20;
  block_number = none;
  gas_used = none;
  effective_gas_price = none;
  logs = none;
  revert_reason = none;
}

-- Two pending requests, one with a refused attempt and one with none.
abbrev db : Db
db = record {
  apps = [];
  signers = [];
  requests = request 3 ∷ request 6 ∷ [];
  attempts = refused ∷ [];
  deliveries = [];
  gas_attempts = [];
}

abbrev report : RecoveryReport
report = record {
  inflight_attempts = 0;
  pending_webhook_deliveries = 0;
  stuck_requests = record { request_id = 6; app_id = 1; created_at = 10 } ∷ [];
}

reported : recover pg db ≡ ok report
unfolding recover
reported = refl
