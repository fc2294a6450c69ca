-- ===== src/Relay/Tests.antt =====
-- The theorems on `Submit` of internal/relay/service.go at a concrete app, chain and database.
use txmill.Base.{
  false, Result, lookup, ◌⊎◌, ◌++◌, ℕ, zero, suc, ◌+◌, ◌<◌, ◌^◌, ◌≡◌, refl, List, [], ◌∷◌, Option,
  none, some, ok, err, Error, new, wrap, pos, arith, get_elem?, true,
}
use txmill.Store.{Postgres, Db, Request, RequestStatus}
use txmill.Signer.{Signer, use_nonce, rewind_nonce}
use txmill.Signer.Pool.{AppPool, Pool, SignerRef, load, checkout, release, deref, store, fresh_pool}
use txmill.Relay.Chain.{Signed, Chain, SignTx}
use txmill.Relay.Effects.{SignsIts}
use txmill.Relay.Service.{
  new_request, Service, SubmitInput, SubmitResult, World, submit, validate, insert_request,
  insert_attempt, mark_attempt_status, mark_submitted, fire_webhook, gas_limit_for, buffered,
  relay_with, sign_and_send, record_attempt, broadcast,
}
use txmill.Relay.Nonces.{IsTracked, submit-IsTracked, Fits}
use txmill.Relay.Marks.{status_in}
use txmill.Relay.Rows.{masked}
use txmill.Relay.Appends.{submit_appends}
use txmill.Relay.Sends.{Succeeds, submit_sends}
use txmill.Relay.Shape.{Shape}
use txmill.Relay.Returns.{submit_returns}
use txmill.Relay.Outcome.{submit-status}
use txmill.Relay.Lost.{lost_reply-repeats}
use txmill.Relay.Retry.{retry_refused, fails_at}

abbrev pg : Postgres
pg = record {
  now = 50;
  new_id = λ s. 9;
  failure = λ s. none;
  unique_violation = Error.foreign 23505;
}

-- The node accepts every transaction, or none.
abbrev chain_with : Option Error → Chain
chain_with answer = record {
  chain_id = 1;
  estimate_gas = λ m. ok 30000;
  suggest_gas_price = ok 5;
  send_transaction = λ x. answer;
  lost_reply = λ x. false;
}

abbrev sign_tx : SignTx
sign_tx chain tx key = ok (record { tx = tx; from = key; hash = tx.nonce + 1000 })

sign_tx-SignsIts : SignsIts sign_tx
sign_tx-SignsIts chain tx key x e = ground arith

abbrev service_with : Option Error → Service
service_with answer = record {
  pg = pg;
  chain = chain_with answer;
  backends = record {
    list_signers = λ app. ok (100 ∷ []);
    load_key = λ address. ok 500;
    pending_nonce_at = λ address. ok 7;
  };
  sign_tx = sign_tx;
  webhooks = none;
  unix_now = 0;
  cancelled = none;
}

abbrev service : Service
service = service_with none

abbrev refusing : Service
refusing = service_with (some (new "nonce too low"))

abbrev input : SubmitInput
input = record {
  app_id = 1;
  chain_id = 1;
  to = 77;
  call_data = [];
  value = none;
  gas_limit = 0;
  deadline = pos 0;
  callback_url = [];
  callback_metadata = [];
}

abbrev signer_at : ℕ → Signer
signer_at n = record { app_id = 1; address = 100; key = 500; nonce = n }

abbrev ref : SignerRef
ref = record { app_id = 1; index = 0 }

abbrev empty_db : Db
empty_db = record {
  apps = [];
  signers = [];
  requests = [];
  attempts = [];
  deliveries = [];
  gas_attempts = [];
}

abbrev pool_at : ℕ → Pool
pool_at n = (1, fresh_pool (signer_at n ∷ [])) ∷ []

abbrev world : World
world = record { db = empty_db; pool = pool_at 7; sent = [] }

abbrev Room : Pool → Type 0
Room p = (r : SignerRef) (sig : Signer) → deref p r ≡ some sig → sig.nonce + 1 < 2 ^ 64

only_signer : (n i : ℕ) (sig : Signer) → get_elem? (signer_at n ∷ []) i ≡ some sig → sig.nonce ≡ n
only_signer n zero sig h = ground arith
only_signer n (suc i) sig h = absurd (ground arith)

Room-pool_at : (n : ℕ) → n < 1000 → Room (pool_at n)
unfolding deref
Room-pool_at n small r sig h =
    let bound : get_elem? (signer_at n ∷ []) r.index ≡ some sig = ground arith in
    omega (arith, only_signer n r.index sig bound)

Room-load : Room (load service.backends world.pool 1).1
unfolding load
Room-load = Room-pool_at 7 (omega arith)

tracked : IsTracked ref 7 world
unfolding deref
tracked = record { signer = signer_at 7; count = 0; held = refl; next = refl; sent = refl }

submit-IsTracked_example : IsTracked ref 7 (submit service input world).1
submit-IsTracked_example =
    submit-IsTracked ref 7 service input world sign_tx-SignsIts (λ x e h. refl) Room-load tracked

abbrev two_calls : List (Service × SubmitInput)
two_calls = (refusing, input) ∷ (service, input) ∷ []

pool_after : (submit refusing input world).1.pool ≡ pool_at 7
unfolding submit validate insert_request load checkout deref relay_with gas_limit_for buffered
    sign_and_send use_nonce rewind_nonce store record_attempt insert_attempt broadcast
    mark_attempt_status release
pool_after = refl

still_loaded : (load service.backends (submit refusing input world).1.pool 1).1 ≡ pool_at 7
unfolding load
still_loaded = rw pool_after refl

Room-submit : Room (load service.backends (submit refusing input world).1.pool 1).1
Room-submit = rw still_loaded (Room-pool_at 7 (omega arith))

two_calls-Fits : Fits two_calls world
two_calls-Fits = (
  sign_tx-SignsIts,
  (λ x e h. refl),
  Room-load,
  (sign_tx-SignsIts, (λ x e h. refl), Room-submit, tt),
)

accepted :
    (submit service input world).0
    ≡ some (ok (record { request_id = 9; tx_hash = 1007; signer = 100 }))
unfolding submit validate insert_request load checkout deref relay_with gas_limit_for buffered
    sign_and_send use_nonce store record_attempt insert_attempt broadcast mark_submitted
    fire_webhook release
accepted = refl

valid : validate service input ≡ ok tt
unfolding validate
valid = refl

stored : (insert_request pg input empty_db).0 ≡ ok 9
unfolding insert_request
stored = refl

submit-status_example :
    status_in 9 (submit service input world).1.db.requests ≡ some RequestStatus.submitted
submit-status_example =
    submit-status service input world 9 refl refl valid stored
      (ok (record { request_id = 9; tx_hash = 1007; signer = 100 })) accepted

abbrev after_refusal : World
after_refusal = (relay_with refusing input ref (signer_at 7) 9 world).1

refused : fails_at "submit" (relay_with refusing input ref (signer_at 7) 9 world).0 ≡ true
unfolding relay_with gas_limit_for buffered sign_and_send use_nonce record_attempt insert_attempt
    broadcast
refused = refl

same_gas : gas_limit_for service (signer_at 7) input ≡ gas_limit_for refusing (signer_at 7) input
unfolding gas_limit_for
same_gas = refl

retry_refused_example :
    ((relay_with service input ref (signer_at 7) 10 after_refusal).0
      ≡ err (wrap "insert attempt" (Error.foreign 23505)))
    × ((relay_with service input ref (signer_at 7) 10 after_refusal).1.sent ≡ after_refusal.sent)
retry_refused_example =
    retry_refused refusing service input ref (signer_at 7) 9 10 world after_refusal refused refl
      refl refl same_gas refl refl

abbrev done : World
done = (submit service input world).1

-- The node takes the transaction, and the connection breaks before it has replied.
abbrev unanswered : Service
unanswered = record (service_with (some (new "EOF"))) {
  chain = record (chain_with (some (new "EOF"))) { lost_reply = λ x. true };
}

signer_there : deref world.pool ref ≡ some (signer_at 7)
unfolding deref
signer_there = refl

unanswered_fails :
    fails_at "submit" (relay_with unanswered input ref (signer_at 7) 9 world).0 ≡ true
unfolding relay_with gas_limit_for buffered sign_and_send use_nonce record_attempt insert_attempt
    broadcast
unanswered_fails = refl

lost_reply-repeats_example :
    (x : Signed) × (x.tx.nonce ≡ 7)
    × ((relay_with unanswered input ref (signer_at 7) 9 world).1.sent
        ≡ [] ++ record { by = ref; signed = x } ∷ [])
    × (deref (relay_with unanswered input ref (signer_at 7) 9 world).1.pool ref
        ≡ some (signer_at 7))
lost_reply-repeats_example =
    lost_reply-repeats unanswered input ref (signer_at 7) 9 (λ x. refl) world sign_tx-SignsIts
      signer_there (omega arith) unanswered_fails

submit_appends_example :
    (done.db.requests ≡ world.db.requests)
    ⊎ ((row : Request) × (done.db.requests ≡ world.db.requests ++ row ∷ [])
        × (masked 9 row ≡ masked 9 (new_request pg input)))
submit_appends_example = submit_appends service input world tt

submit_sends_example :
    Succeeds service input world (record { request_id = 9; tx_hash = 1007; signer = 100 }) done
submit_sends_example =
    submit_sends service input world (record { request_id = 9; tx_hash = 1007; signer = 100 })
      accepted

abbrev idle_pool : AppPool
idle_pool = fresh_pool (signer_at 7 ∷ [])

already_loaded : lookup 1 (load refusing.backends world.pool 1).1 ≡ some idle_pool
unfolding load
already_loaded = refl

-- The node refuses the transaction.
submit_returns_example :
    (r : Result SubmitResult) × ((submit refusing input world).0 ≡ some r)
    × (((submit refusing input world).1.pool ≡ world.pool)
        ⊎ Shape 1 (0 ∷ []) 1 (submit refusing input world).1.pool)
submit_returns_example =
    submit_returns refusing input world 0 [] idle_pool already_loaded refl (omega arith)
      (omega arith) refl
