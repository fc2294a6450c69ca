-- ===== src/Api/Tests.antt =====
-- The theorems on internal/api at a server with one app, one signer and a node that accepts everything.
use txmill.Base.{
  ℕ, ◌+◌, pos, ◌≡◌, ◌⊎◌, refl, true, false, List, [], ◌∷◌, ◌++◌, none, some, Bytes, bytes, ok,
  Error, Addresses, bytes_eq, trim_space, after_prefix, hex_decode,
}
use txmill.Store.{App as AppRow, Db, Postgres}
use txmill.Signer.{Signer, use_nonce}
use txmill.Signer.Pool.{load, checkout, release, deref, store, fresh_pool}
use txmill.Relay.Chain.{Chain}
use txmill.Relay.Service.{
  fire_webhook, Service, submit, validate, insert_request, insert_attempt, mark_submitted,
  gas_limit_for, buffered, relay_with, sign_and_send, record_attempt, broadcast,
}
use txmill.App.{Service as AppService, Identity}
use txmill.App.Policy.{set_string, parse_uint_or_zero, validate_gas_policy}
use txmill.App.Create.{generate_signers, add_signers, insert, create, authenticate}
use txmill.Api.{
  Reply, System, text, RelayRequest, RelayResponse, CreateAppRequest, CreateAppResponse, json,
  http_error, app_created, relayed,
}
use txmill.Api.Relays.{decode_hex_bytes, parse_value, check_relay, post_relay, get_relay}
use txmill.Api.Accounts.{create_app}
use txmill.Api.Auth.{bearer_auth, granted, extract_bearer_token, Opens}
use txmill.Api.Router.{Handlers, Protected, Request, handle, serve}
use txmill.Api.Guards.{IsRefusal, serve_guarded}
use txmill.Api.Onboarding.{serve-bearer_auth}
use txmill.Api.Served.{serve-IsShown}
use txmill.Api.Posted.{IsShown, post_relay-get_relay}

abbrev pg : Postgres
pg = record {
  now = 50;
  new_id = λ s. 9;
  failure = λ s. none;
  unique_violation = Error.foreign 23505;
}

abbrev apps : AppService
apps = record {
  pg = pg;
  generate = λ i. ok i;
  rand = λ i. ok (i ∷ []);
  base64 = λ raw. raw;
  sha256 = λ token. token;
  numeric = λ text. ok (pos 0);
}

abbrev chain : Chain
chain = record {
  chain_id = 1;
  estimate_gas = λ m. ok 30000;
  suggest_gas_price = ok 5;
  send_transaction = λ x. none;
  lost_reply = λ x. false;
}

abbrev relay : Service
relay = record {
  pg = pg;
  chain = chain;
  backends = record {
    list_signers = λ app. ok (100 ∷ []);
    load_key = λ address. ok 500;
    pending_nonce_at = λ address. ok 7;
  };
  sign_tx = λ c tx key. ok (record { tx = tx; from = key; hash = tx.nonce + 1000 });
  webhooks = none;
  unix_now = 0;
  cancelled = none;
}

-- An address is its first byte.
abbrev first : Bytes → ℕ
first [] = 0
first (c ∷ s) = c

abbrev addresses : Addresses
addresses = record { hex = λ a. a ∷ []; is_hex_address = λ s. true; hex_to_address = first }

abbrev handlers : Handlers
handlers = record {
  apps = some apps;
  relay = some relay;
  chain = none;
  treasury = none;
  addresses = addresses;
  no_route = http_error 404 (text "Not Found");
}

abbrev app_row : AppRow
app_row = record {
  id = 1;
  name = bytes "shop";
  treasury_address = 0;
  bearer_token_hash = bytes "tk";
  pool_size = 1;
  default_callback_url = none;
  default_callback_secret = none;
  disabled = false;
  signer_min_balance = pos 0;
  signer_refill_amount = pos 0;
  treasury_min_balance = pos 0;
}

abbrev db_with : List AppRow → Db
db_with rows = record {
  apps = rows;
  signers = [];
  requests = [];
  attempts = [];
  deliveries = [];
  gas_attempts = [];
}

abbrev signer : Signer
signer = record { app_id = 1; address = 100; key = 500; nonce = 7 }

abbrev system_with : List AppRow → System
system_with rows = record {
  db = db_with rows;
  pool = (1, fresh_pool (signer ∷ [])) ∷ [];
  sent = [];
  swept = [];
  keys = [];
}

abbrev system : System
system = system_with (app_row ∷ [])

abbrev body : RelayRequest
body = record {
  chain_id = 1;
  to = 77 ∷ [];
  call_data = bytes "0x0a";
  value = bytes "5";
  gas_limit = 0;
  deadline = pos 0;
  callback_url = [];
  callback_metadata = bytes "order";
}

abbrev response : RelayResponse
response = record { request_id = 9; tx_hash = 1007; signer = 100 }

posts : (post_relay addresses relay 1 (some body) system).0 ≡ some (json 202 (relayed response))
unfolding post_relay check_relay decode_hex_bytes parse_value set_string after_prefix hex_decode
    trim_space submit validate insert_request load checkout deref relay_with gas_limit_for buffered
    sign_and_send use_nonce store record_attempt insert_attempt broadcast mark_submitted release
posts = refl

post_relay-get_relay_example :
    IsShown 1 2 9
      (bytes "order")
      (get_relay relay 2 9 (post_relay addresses relay 1 (some body) system).1)
post_relay-get_relay_example =
    post_relay-get_relay addresses relay relay 1 2 body system 202 response tt refl refl posts

abbrev header : Bytes
header = bytes "Bearer tk"

abbrev posting : Protected
posting = Protected.post_relay (some body)

serves :
    (serve handlers header (Request.protected posting) system).0
    ≡ some (json 202 (relayed response))
unfolding serve handle bearer_auth extract_bearer_token after_prefix authenticate bytes_eq
    post_relay check_relay decode_hex_bytes parse_value set_string hex_decode trim_space submit
    validate insert_request load checkout deref relay_with gas_limit_for buffered sign_and_send
    use_nonce store record_attempt insert_attempt broadcast mark_submitted release
serves = refl

abbrev posted : System
posted = (serve handlers header (Request.protected posting) system).1

abbrev reader : Identity
reader = record { app_id = 1; pool_size = 1; disabled = false }

reads_back : bearer_auth apps header posted.db ≡ granted reader
unfolding serve handle bearer_auth extract_bearer_token after_prefix authenticate bytes_eq
    post_relay check_relay decode_hex_bytes parse_value set_string hex_decode trim_space submit
    validate insert_request load checkout deref relay_with gas_limit_for buffered sign_and_send
    use_nonce store record_attempt insert_attempt broadcast mark_submitted release fire_webhook
reads_back = refl

serve-IsShown_example :
    (id : Identity) × (reply : Reply) × Opens apps header system.db id
    × ((serve handlers header (Request.protected (Protected.get_relay 9)) posted).0 ≡ some reply)
    × IsShown id.app_id 1 9 (bytes "order") reply
serve-IsShown_example =
    serve-IsShown handlers apps relay refl refl header header body system 202 response reader tt
      refl refl serves reads_back

serve_guarded_example :
    (IsRefusal (serve handlers [] (Request.protected posting) system).0
      × ((serve handlers [] (Request.protected posting) system).1 ≡ system))
    ⊎ ((id : Identity) × Opens apps [] system.db id
        × (serve handlers [] (Request.protected posting) system
            ≡ handle handlers apps id.app_id posting system))
serve_guarded_example = serve_guarded handlers apps [] posting system refl

abbrev app_request : CreateAppRequest
app_request = record {
  name = bytes "shop";
  pool_size = pos 1;
  default_callback_url = [];
  signer_min_balance = [];
  signer_refill_amount = [];
  treasury_min_balance = [];
}

abbrev created : CreateAppResponse
created = record {
  app_id = 9;
  bearer_token = bytes "tk_" ++ 0 ∷ [];
  default_callback_secret = [];
  treasury_address = 0;
  signer_addresses = 1 ∷ [];
}

creates :
    (serve handlers [] (Request.create_app (some app_request)) (system_with [])).0
    ≡ some (json 201 (app_created created))
unfolding serve create_app create trim_space validate_gas_policy parse_uint_or_zero set_string
    generate_signers insert add_signers
creates = refl

serve-bearer_auth_example :
    (n : ℕ) × (pos 1 ≡ pos n)
    × (bearer_auth apps
          (bytes "Bearer " ++ created.bearer_token)
          (serve handlers [] (Request.create_app (some app_request)) (system_with [])).1.db
        ≡ granted (record { app_id = 9; pool_size = n; disabled = false }))
serve-bearer_auth_example =
    serve-bearer_auth handlers apps [] app_request (system_with []) 201 created refl creates refl
