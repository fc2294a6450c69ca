-- ===== src/Api.antt =====
-- internal/api: the types of requests and replies, and the state that the handlers share.
pub mod Relays
pub mod Accounts
pub mod Auth
pub mod Router
pub mod Bodies
pub mod Posted
pub mod Served
pub mod Guards
pub mod Onboarding
mod Tests
use txmill.Base.{
  ℕ, ℤ, Bool, List, Option, Bytes, String, Error, Sentinel, sentinel, new, foreign, wrap, false,
  ◌==◌,
}
use txmill.Store.{Db}
use txmill.Signer.Pool.{Pool}
use txmill.Relay.Chain.{Signed}
use txmill.Relay.Service.{Sent}
use txmill.Relay.Get.{Status}

-- All that a request can change: the database, the signers in memory, the transactions of `Submit`
-- and of `Sweep` that the node has accepted, and the addresses whose keys the keystore holds.
pub record System : Type 0 where
  pub db : Db
  pub pool : Pool
  pub sent : List Sent
  pub swept : List Signed
  pub keys : List ℕ

-- The text of an HTTP error: a literal, or a prefix before `err.Error()`.
pub data Message : Type 0 where
  text : String → Message
  about : String → Error → Message

-- `relayRequest`, `createAppRequest` and `sweepRequest`: the texts as they come.
pub record RelayRequest : Type 0 where
  pub chain_id : ℕ
  pub to : Bytes
  pub call_data : Bytes
  pub value : Bytes
  pub gas_limit : ℕ
  pub deadline : ℤ
  pub callback_url : Bytes
  pub callback_metadata : Bytes

pub record CreateAppRequest : Type 0 where
  pub name : Bytes
  pub pool_size : ℤ
  pub default_callback_url : Bytes
  pub signer_min_balance : Bytes
  pub signer_refill_amount : Bytes
  pub treasury_min_balance : Bytes

pub record SweepRequest : Type 0 where
  pub to : Bytes
  pub value : Bytes

-- The responses. An address or a hash stands for its hex text, an amount for its decimal text.
pub record RelayResponse : Type 0 where
  pub request_id : ℕ
  pub tx_hash : ℕ
  pub signer : ℕ

pub record CreateAppResponse : Type 0 where
  pub app_id : ℕ
  pub bearer_token : Bytes
  pub default_callback_secret : Bytes
  pub treasury_address : ℕ
  pub signer_addresses : List ℕ

pub record SweepResponse : Type 0 where
  pub tx_hash : ℕ
  pub from : ℕ
  pub to : ℕ
  pub value_wei : ℤ

pub record SignersResponse : Type 0 where
  pub app_id : ℕ
  pub signer_addresses : List ℕ

pub record BalancesAccount : Type 0 where
  pub address : ℕ
  pub balance_wei : ℕ

pub record BalancesSigner : Type 0 where
  pub address : ℕ
  pub balance_wei : ℕ
  pub last_used_at : Option ℕ

pub record BalancesResponse : Type 0 where
  pub treasury : BalancesAccount
  pub signers : List BalancesSigner

pub data Body : Type 0 where
  healthy : Body
  app_created : CreateAppResponse → Body
  signers : SignersResponse → Body
  balances : BalancesResponse → Body
  swept : SweepResponse → Body
  relayed : RelayResponse → Body
  relay_status : Status → Body

-- What a handler returns: a JSON response, `echo.NewHTTPError`, or another error.
pub data Reply : Type 0 where
  json : ℕ → Body → Reply
  http_error : ℕ → Message → Reply
  failed : Error → Reply

abbrev sentinel_code : Sentinel → ℕ
sentinel_code Sentinel.chain_id_mismatch = 0
sentinel_code Sentinel.past_deadline = 1
sentinel_code Sentinel.app_not_loaded = 2
sentinel_code Sentinel.request_not_found = 3
sentinel_code Sentinel.app_not_found = 4
sentinel_code Sentinel.invalid_token = 5
sentinel_code Sentinel.no_rows = 6

-- `errors.Is` at a sentinel.
abbrev pub errors_is : Sentinel → Error → Bool
errors_is s (sentinel t) = sentinel_code t == sentinel_code s
errors_is s (new msg) = false
errors_is s (foreign n) = false
errors_is s (wrap label cause) = errors_is s cause
