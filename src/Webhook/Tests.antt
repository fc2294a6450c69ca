-- ===== src/Webhook/Tests.antt =====
-- The theorems on internal/webhook/webhook.go at concrete rows.
use txmill.Webhook.Runs.{TickAnswers, run, run-IsSound}
use txmill.Base.{
  Event, List, ℕ, ◌≤◌, ◌≡◌, refl, [], ◌∷◌, Option, none, some, Bytes, bytes, ok, Error, All, arith,
  Bool, ℤ,
}
use txmill.Store.{Postgres, Db, App, Request, RequestStatus, Delivery, DeliveryStatus}
use txmill.Relay.Get.{Raw, get_raw, scan}
use txmill.Webhook.Enqueue.{Webhooks}
use txmill.Webhook.Snapshots.{Enqueued, enqueue_lem}
use txmill.Webhook.Worker.{Surroundings, Answer, deliver, pending_of}
use txmill.Webhook.Retries.{IsSound, deliver_lem, updated, after_delivery}
use txmill.Webhook.Lifecycle.{Evolves}

abbrev pg : Postgres
pg = record {
  now = 50;
  new_id = λ s. 9;
  failure = λ s. none;
  unique_violation = Error.foreign 23505;
}

-- The receiver answers 500 with an empty body.
abbrev surroundings : Surroundings
surroundings = record {
  pg = pg;
  clock = 60;
  request_error = λ url. none;
  post = λ d. Answer.replied 500 [];
}

abbrev row : ℕ → ℕ → Delivery
row id attempt = record {
  id = id;
  request_id = 3;
  url = bytes "http://receiver";
  payload = bytes "{}";
  signature = bytes "sha256=00";
  attempt = attempt;
  status = DeliveryStatus.pending;
  response_code = none;
  last_error = none;
  created_at = 10;
  next_attempt_at = 10;
}

abbrev app_with : Option Bytes → App
app_with secret = record {
  id = 1;
  name = [];
  treasury_address = 900;
  bearer_token_hash = [];
  pool_size = 1;
  default_callback_url = some (bytes "http://receiver");
  default_callback_secret = secret;
  disabled = Bool.false;
  signer_min_balance = ℤ.pos 0;
  signer_refill_amount = ℤ.pos 0;
  treasury_min_balance = ℤ.pos 0;
}

abbrev request : Request
request = record {
  id = 3;
  app_id = 1;
  chain_id = 1;
  to_address = 77;
  call_data = [];
  value = ℤ.pos 0;
  gas_limit = none;
  deadline = none;
  callback_url = none;
  callback_metadata = none;
  status = RequestStatus.confirmed;
  created_at = 10;
  updated_at = 10;
}

abbrev db_with : Option Bytes → Db
db_with secret = record {
  apps = app_with secret ∷ [];
  signers = [];
  requests = request ∷ [];
  attempts = [];
  deliveries = row 1 4 ∷ row 2 0 ∷ [];
  gas_attempts = [];
}

abbrev db : Db
db = db_with (some (bytes "secret"))

IsSound-row : (id attempt : ℕ) → attempt ≤ 4 → IsSound (row id attempt)
IsSound-row id attempt h = ground arith

All-IsSound : All IsSound db.deliveries
All-IsSound = (IsSound-row 1 4 (omega arith), (IsSound-row 2 0 (omega arith), tt))

abbrev ticking : List (Event TickAnswers)
ticking = Event.ticked (pg, λ id. surroundings) ∷ Event.ticked (pg, λ id. surroundings) ∷ []

run-IsSound_example :
    (db' : Db) × (run (ℤ.pos 500000000) 10 ticking db ≡ some db')
    × All IsSound db'.deliveries
    × Evolves db.deliveries db'.deliveries
run-IsSound_example =
    run-IsSound (ℤ.pos 500000000) 10 ticking db refl (((ground arith, tt), (tt, tt))) All-IsSound

deliver_lem_example : deliver surroundings (pending_of (row 1 4)) db ≡ (
  ok tt,
  updated surroundings
      (pending_of (row 1 4))
      (omega arith)
      (after_delivery surroundings (pending_of (row 1 4)))
      db,
)
deliver_lem_example = deliver_lem surroundings (pending_of (row 1 4)) (omega arith) db refl

-- The encoder writes the request's id alone, the digest is the key.
abbrev webhooks : Webhooks
webhooks = record { pg = pg; marshal = λ st. ok (st.request_id ∷ []); hmac = λ key message. key }

enqueue_lem_example : Enqueued webhooks 3 db
enqueue_lem_example = enqueue_lem webhooks 3 db

abbrev no_secret : Raw
no_secret = record { payload = 3 ∷ []; url = bytes "http://receiver"; secret = [] }

read_no_secret : (get_raw pg webhooks.marshal 3 (db_with none)).0 ≡ ok no_secret
unfolding get_raw scan
read_no_secret = refl
