-- ===== src/Gas/Tests.antt =====
-- The theorems on internal/gas/worker.go at an app with two signers.
use txmill.Base.{ℕ, ◌+◌, ◌≡◌, refl, [], none, ok, Error, pos, Bool, false, arith}
use txmill.Store.{Postgres}
use txmill.Relay.Chain.{SignTx, Signed}
use txmill.Gas.Worker.{AppPolicy, Worker, GasWorld, topup_for, refill, needs_refill}
use txmill.Gas.Refills.{refill_guards}

abbrev pg_at : ℕ → Postgres
pg_at now = record {
  now = now;
  new_id = λ s. 9;
  failure = λ s. none;
  unique_violation = Error.foreign 23505;
}

abbrev sign_tx : SignTx
sign_tx chain tx key = ok (record { tx = tx; from = key; hash = tx.nonce + 1000 })

abbrev worker_at : ℕ → Worker
worker_at now = record {
  pg = pg_at now;
  chain_id = 1;
  balance_at = λ address. ok 10;
  pending_nonce_at = λ address. ok 4;
  suggest_gas_price = ok 5;
  send_transaction = λ x. none;
  load_key = λ address. ok 500;
  sign_tx = sign_tx;
}

abbrev policy : AppPolicy
policy = record {
  id = 1;
  treasury_address = 900;
  signer_min_balance = pos 50;
  signer_refill_amount = pos 200;
  treasury_min_balance = pos 0;
}

abbrev world : GasWorld
world = record {
  db = record {
    apps = [];
    signers = [];
    requests = [];
    attempts = [];
    deliveries = [];
    gas_attempts = [];
  };
  sent = [];
  alerted = [];
}

abbrev topped : Signed
topped = record { tx = topup_for policy 4 5 100; from = 500; hash = 1004 }

topped_up : (refill (worker_at 1000) policy 500 4 5 100 world).0 ≡ Bool.true
unfolding refill
topped_up = refl

refill_guards_example :
    needs_refill
      (worker_at 60999)
      policy
      100
      (refill (worker_at 1000) policy 500 4 5 100 world).1.db
    ≡ false
refill_guards_example =
    refill_guards (worker_at 1000) (worker_at 60999) policy policy 500 4 5 100 world topped refl
      topped_up refl refl (omega arith)
