-- ===== src/App.antt =====
-- internal/app: registered apps. The types of app.go and the parameters of its calls.
pub mod Policy
pub mod Create
pub mod Stages
pub mod Created
pub mod Access
pub mod Accounts
pub mod Tests
use txmill.Base.{ℕ, ℤ, List, Bytes, Result, Bool}
use txmill.Store.{Postgres, Db}

pub record CreateInput : Type 0 where
  pub name : Bytes
  pub pool_size : ℤ
  pub default_callback_url : Bytes
  pub signer_min_balance : Bytes
  pub signer_refill_amount : Bytes
  pub treasury_min_balance : Bytes

pub record CreateResult : Type 0 where
  pub app_id : ℕ
  pub bearer_token : Bytes
  pub default_callback_secret : Bytes
  pub treasury_address : ℕ
  pub signer_addresses : List ℕ

-- `Service`, with the answers during one call: of the keystore's `Generate` and of `rand.Read`, by
-- the number of the call; of `base64.RawURLEncoding` and `sha256.Sum256`; and of PostgreSQL where it
-- reads a text as NUMERIC(78, 0).
pub record Service : Type 0 where
  pub pg : Postgres
  pub generate : ℕ → Result ℕ
  pub rand : ℕ → Result Bytes
  pub base64 : Bytes → Bytes
  pub sha256 : Bytes → Bytes
  pub numeric : Bytes → Result ℤ

-- What `Create` changes: the database, and the addresses whose keys the keystore holds.
pub record AppWorld : Type 0 where
  pub db : Db
  pub keys : List ℕ

pub record Identity : Type 0 where
  pub app_id : ℕ
  pub pool_size : ℕ
  pub disabled : Bool
