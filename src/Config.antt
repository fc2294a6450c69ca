-- ===== src/Config.antt =====
-- internal/config/config.go: the settings, from the environment.
pub mod Numbers
mod Tests
use txmill.Base.{
  ℕ, ◌+◌, ◌*◌, ◌-◌, ◌^◌, List, [], ◌∷◌, Option, none, some, Bytes, bytes, leb, ltb, ◌&&◌,
  if◌then◌else◌, Bool, is_empty,
}

-- `Config`
pub record Config : Type 0 where
  pub api_listen : Bytes
  pub db_url : Bytes
  pub keystore_dir : Bytes
  pub keystore_password : Bytes
  pub rpc_url : Bytes
  pub chain_id : ℕ
  pub watcher_interval_ms : ℕ
  pub watcher_batch_size : ℕ
  pub gas_interval_ms : ℕ
  pub alert_webhook_url : Bytes
  pub telegram_bot_token : Bytes
  pub telegram_chat_id : Bytes
  pub alert_throttle_ms : ℕ

-- `os.Getenv`: empty where the variable is not set.
abbrev pub Env : Type 0
Env = Bytes → Bytes

unfoldable pub getenv : Env → Bytes → Bytes → Bytes
getenv env key default = if is_empty (env key) then default else env key

abbrev digit : ℕ → ℕ → Option ℕ → Option ℕ
digit n c rest = if leb b'0' c && leb c b'9' then rest else none

-- The value of the digits of a text, after a number already read.
unfoldable pub digits_value : ℕ → Bytes → Option ℕ
digits_value n [] = some n
digits_value n (c ∷ s) = digit n c (digits_value (n * 10 + (c - b'0')) s)

abbrev pub in_range : Option ℕ → Option ℕ
in_range none = none
in_range (some n) = if ltb n (2 ^ 64) then some n else none

-- `strconv.ParseUint` in base 10 at 64 bits; `none` is either of its errors.
unfoldable pub parse_uint : Bytes → Option ℕ
parse_uint [] = none
parse_uint (c ∷ s) = in_range (digits_value 0 (c ∷ s))

abbrev pub or_default : ℕ → Option ℕ → ℕ
or_default default none = default
or_default default (some n) = n

unfoldable pub getenv_uint64 : Env → Bytes → ℕ → ℕ
getenv_uint64 env key default = or_default default (parse_uint (env key))

-- `Load`
unfoldable pub load : Env → Config
load env = record {
  api_listen = getenv env (bytes "TXMILL_API_LISTEN") (bytes ":8080");
  db_url = env (bytes "TXMILL_DB_URL");
  keystore_dir = getenv env (bytes "TXMILL_KEYSTORE_DIR") (bytes "./data/keys");
  keystore_password = env (bytes "TXMILL_KEYSTORE_PASSWORD");
  rpc_url = env (bytes "TXMILL_RPC_URL");
  chain_id = getenv_uint64 env (bytes "TXMILL_CHAIN_ID") 146;
  watcher_interval_ms = getenv_uint64 env (bytes "TXMILL_WATCHER_INTERVAL_MS") 1000;
  watcher_batch_size = getenv_uint64 env (bytes "TXMILL_WATCHER_BATCH_SIZE") 50;
  gas_interval_ms = getenv_uint64 env (bytes "TXMILL_GAS_INTERVAL_MS") 30000;
  alert_webhook_url = env (bytes "TXMILL_ALERT_WEBHOOK_URL");
  telegram_bot_token = env (bytes "TXMILL_TELEGRAM_BOT_TOKEN");
  telegram_chat_id = env (bytes "TXMILL_TELEGRAM_CHAT_ID");
  alert_throttle_ms = getenv_uint64 env (bytes "TXMILL_ALERT_THROTTLE_MS") (30 * 60 * 1000);
}
