-- ===== src/Start.antt =====
-- cmd/txmill/main.go: from the configuration to the running server, with `NewPool` of
-- internal/store/db.go and `Dial` of internal/chain/client.go.
pub mod Ready
pub mod Client
pub mod AlertTest
mod Tests
use txmill.Base.{
  ℕ, ◌+◌, ◌*◌, ◌/◌, ◌%◌, ◌^◌, ℤ, pos, negsuc, ◌&&◌, ◌||◌, not, Bool, true, false, List, [], ◌∷◌,
  ◌++◌, Option, none, some, Bytes, Result, ok, err, Error, new, wrap, int64, is_empty, ltb,
  is_positive, ◌==◌, if◌then◌else◌,
}
use txmill.Config.{Config}
use txmill.Keystore.Keys.{new_keystore}
use txmill.Alert.{Notifier, Throttled, new_throttled}
use txmill.Alert.Transports.{Http, by_webhook, new_webhook, by_telegram, new_telegram}

-- The answers during the start: of the database, the keystore's directory and the node, and those that
-- the transports of alerts will get.
pub record Surroundings : Type 0 where
  pub pgxpool_new : Option Error
  pub ping : Option Error
  pub mkdir : Option Error
  pub dial_context : Option Error
  pub rpc_chain_id : Result ℤ
  pub http : Http

abbrev pub is_chain : ℤ → ℕ → Bool
is_chain (pos got) expected = got == expected
is_chain (negsuc got) expected = false

abbrev matched : ℕ → Result ℤ → Result ℤ
matched expected (err e) = err (wrap "chain: chain id" e)
matched expected (ok got) =
    if is_chain got expected then ok got else err (new "chain: chain id mismatch")

-- `chain.Dial`: the chain id that the client keeps.
unfoldable pub dial : Surroundings → ℕ → Result ℤ
dial x expected = elim x.dial_context [
  | some e ↦ err (wrap "chain: dial" e)
  | none ↦ matched expected x.rpc_chain_id
]

-- `time.Duration(ms) * time.Millisecond`, in nanoseconds: both wrap at 64 bits.
unfoldable pub milliseconds : ℕ → ℤ
milliseconds ms = int64 (ms * 1000000 % 2 ^ 64)

-- A duration as the throttle's interval, in whole milliseconds: less than `n` nanoseconds have passed
-- exactly if less than the next whole number of milliseconds has. No time is less than a negative one.
abbrev throttle_interval : ℤ → ℕ
throttle_interval (pos n) = (n + 999999) / 1000000
throttle_interval (negsuc n) = 0

-- `store.NewPool`: a pool that does not answer is closed again.
abbrev pub new_pool : Surroundings → Option Error
new_pool x = elim x.pgxpool_new [
  | some e ↦ some (wrap "pgxpool new" e)
  | none ↦ elim x.ping [ some e ↦ some (wrap "pgxpool ping" e) | none ↦ none ]
]

-- What `buildNotifier` returns: `Discard`, or the throttle with its transports.
pub data Alerting : Type 0 where
  discarding : Alerting
  throttling : List Notifier → Throttled → Alerting

abbrev pub webhook_of : Http → Config → List Notifier
webhook_of h cfg =
    if is_empty cfg.alert_webhook_url
    then []
    else by_webhook h (new_webhook cfg.alert_webhook_url) ∷ []

abbrev pub telegram_of : Http → Config → List Notifier
telegram_of h cfg =
    if not (is_empty cfg.telegram_bot_token) && not (is_empty cfg.telegram_chat_id)
    then by_telegram h (new_telegram cfg.telegram_bot_token cfg.telegram_chat_id) ∷ []
    else []

abbrev throttled : Config → List Notifier → Alerting
throttled cfg [] = discarding
throttled cfg (t ∷ ts) =
    throttling (t ∷ ts) (new_throttled (throttle_interval (milliseconds cfg.alert_throttle_ms)))

unfoldable pub build_notifier : Surroundings → Config → Alerting
unfolding milliseconds
build_notifier x cfg = throttled cfg (webhook_of x.http cfg ++ telegram_of x.http cfg)

-- The server that runs: what its parts were made with. `int(cfg.WatcherBatchSize)` wraps.
pub record Running : Type 0 where
  pub api_listen : Bytes
  pub password : Bytes
  pub chain_id : ℤ
  pub watcher_interval : ℤ
  pub batch_size : ℤ
  pub gas_interval : ℤ
  pub notifier : Alerting

-- `os.Exit` with a code, a panic of a goroutine (which ends the process), or the server.
pub data Started : Type 0 where
  exited : ℕ → Started
  panicked : Started
  running : Running → Started

-- The three workers begin with `time.NewTicker`, which panics at an interval that is not positive.
abbrev pub run_workers : Running → Started
run_workers r =
    if is_positive r.watcher_interval && is_positive r.gas_interval then running r else panicked

abbrev connected : Surroundings → Config → Bytes → Result ℤ → Started
connected x cfg password (err e) = exited 1
connected x cfg password (ok id) = run_workers (record {
  api_listen = cfg.api_listen;
  password = password;
  chain_id = id;
  watcher_interval = milliseconds cfg.watcher_interval_ms;
  batch_size = int64 cfg.watcher_batch_size;
  gas_interval = milliseconds cfg.gas_interval_ms;
  notifier = build_notifier x cfg;
})

abbrev with_keystore : Surroundings → Config → Result Bytes → Started
with_keystore x cfg (err e) = exited 1
with_keystore x cfg (ok password) = connected x cfg password (dial x cfg.chain_id)

-- `main` up to the HTTP server. The report of `Recover` is only logged.
unfoldable pub start : Surroundings → Config → Started
start x cfg =
    if is_empty cfg.db_url
    then exited 2
    else if is_empty cfg.rpc_url
    then exited 2
    else elim (new_pool x) [
      | some e ↦ exited 1
      | none ↦ with_keystore x cfg (new_keystore x.mkdir cfg.keystore_password)
    ]
