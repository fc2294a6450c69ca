-- ===== src/Start/Tests.antt =====
-- The start of cmd/txmill/main.go from the settings of a small environment.
use txmill.Alert.Transports.{Http}
use txmill.Base.{
  some, ◌⊎◌, false, ℕ, ◌≡◌, ◌↔◌, refl, pos, [], none, Bytes, bytes, bytes_eq, ok, if◌then◌else◌,
  arith,
}
use txmill.Config.{Config, Env, load, getenv, getenv_uint64, parse_uint, digits_value}
use txmill.Start.{Surroundings, Running, running, panicked, start, dial, milliseconds}
use txmill.Start.AlertTest.{alert_test, AllDeliver, alert_test-AllDeliver}
use txmill.Start.Client.{Rpc, Client, dial_client, relay_chain, pending_nonce_at, dial-submit}
use txmill.Relay.Watcher.{not_found}
use txmill.Relay.Service.{World, submit, Service, SubmitInput}
use txmill.Alert.{notify_all}
use txmill.Alert.Transports.{notify_webhook}
use txmill.Base.{◌⊎◌, ◌≢◌, ◌∷◌, err, Error, sentinel, chain_id_mismatch}
use txmill.Start.Ready.{IsConnected, IsReady, Runs, start-IsReady}
use txmill.Keystore.Keys.{new_keystore}

abbrev env_with : Bytes → Env
env_with interval key =
    if bytes_eq key (bytes "TXMILL_WATCHER_INTERVAL_MS")
    then interval
    else if bytes_eq key (bytes "TXMILL_DB_URL")
    then bytes "db"
    else if bytes_eq key (bytes "TXMILL_RPC_URL")
    then bytes "node"
    else if bytes_eq key (bytes "TXMILL_KEYSTORE_PASSWORD")
    then bytes "secret"
    else []

-- Every post is answered with one status code.
abbrev http_with : ℕ → Http
http_with code = record {
  new_request = λ url. none;
  send = λ r. ok code;
  encode = λ form. [];
  marshal = λ body. ok body.message;
  range = λ tags. tags;
  unix_now = 0;
}

abbrev surroundings : Surroundings
surroundings = record {
  pgxpool_new = none;
  ping = none;
  mkdir = none;
  dial_context = none;
  rpc_chain_id = ok (pos 146);
  http = http_with 200;
}

abbrev config : Config
config = record {
  api_listen = bytes ":8080";
  db_url = bytes "db";
  keystore_dir = bytes "./data/keys";
  keystore_password = bytes "secret";
  rpc_url = bytes "node";
  chain_id = 146;
  watcher_interval_ms = 500;
  watcher_batch_size = 50;
  gas_interval_ms = 30000;
  alert_webhook_url = [];
  telegram_bot_token = [];
  telegram_chat_id = [];
  alert_throttle_ms = 1800000;
}

loads : load (env_with (bytes "500")) ≡ config
unfolding load getenv getenv_uint64 parse_uint digits_value bytes_eq
loads = refl

start-IsReady_example :
    (IsReady surroundings config → Runs surroundings config)
    × (IsConnected surroundings config
        → (config.watcher_interval_ms ≡ 0) ⊎ (config.gas_interval_ms ≡ 0)
        → start surroundings config ≡ panicked)
    × ((r : Running) → start surroundings config ≡ running r → IsReady surroundings config)
start-IsReady_example = start-IsReady surroundings config (omega arith) (omega arith)

-- With an interval of zero the process ends with a panic.
zero_interval : start surroundings (load (env_with (bytes "0"))) ≡ panicked
unfolding start dial new_keystore milliseconds load getenv getenv_uint64 parse_uint digits_value
    bytes_eq
zero_interval = refl

-- With a webhook whose receiver answers 200, or 500.
abbrev alerting : Config
alerting = record config { alert_webhook_url = bytes "https://hooks" }

alert_test-AllDeliver_example :
    (alert_test (http_with 200) (bytes "now") alerting ≡ 0)
    ↔ AllDeliver (http_with 200) (bytes "now") alerting
alert_test-AllDeliver_example = alert_test-AllDeliver (http_with 200) (bytes "now") alerting

exits_with_one : alert_test (http_with 500) (bytes "now") alerting ≡ 1
unfolding alert_test notify_all notify_webhook
exits_with_one = refl

abbrev rpc : Rpc
rpc = record {
  balance_at = λ addr block. ok 0;
  pending_nonce_at = λ addr. ok 7;
  suggest_gas_price = ok 5;
  estimate_gas = λ msg. ok 21000;
  send_transaction = λ tx. none;
  lost_reply = λ tx. false;
  transaction_receipt = λ hash. not_found;
  call_contract = λ msg block. ok [];
}

abbrev client : Client
client = record { rpc = rpc; chain_id = pos 146 }

dials : dial_client surroundings rpc 146 ≡ ok client
unfolding dial
dials = refl

abbrev service : Service
service = record {
  pg = record {
    now = 50;
    new_id = λ s. 9;
    failure = λ s. none;
    unique_violation = Error.foreign 23505;
  };
  chain = relay_chain client;
  backends = record {
    list_signers = λ app. ok (100 ∷ []);
    load_key = λ address. ok 500;
    pending_nonce_at = pending_nonce_at client;
  };
  sign_tx = λ chain tx key. ok (record { tx = tx; from = key; hash = tx.nonce });
  webhooks = none;
  unix_now = 0;
  cancelled = none;
}

abbrev input : SubmitInput
input = record {
  app_id = 1;
  chain_id = 1;
  to = 77;
  call_data = [];
  value = none;
  gas_limit = 0;
  deadline = pos 0;
  callback_url = [];
  callback_metadata = [];
}

abbrev world : World
world = record {
  db = record {
    apps = [];
    signers = [];
    requests = [];
    attempts = [];
    deliveries = [];
    gas_attempts = [];
  };
  pool = [];
  sent = [];
}

dial-submit_example :
    ((submit service input world).0 ≡ some (err (sentinel chain_id_mismatch))
      ↔ (input.chain_id ≢ 146))
    × (input.chain_id ≢ 146 → (submit service input world).1 ≡ world)
dial-submit_example =
    dial-submit surroundings rpc 146 client service input world (omega arith) dials refl
