-- ===== src/Store/Schema.antt =====
-- migrations/: the rows of the tables. A UUID, an address and a transaction hash are numbers
-- (the columns hold their lower-case hex text, by a CHECK); a time is in milliseconds.
use txmill.Base.{ℕ, ℤ, Bool, Option, List, Bytes}

pub data RequestStatus : Type 0 where
  pending rejected submitted confirmed reverted failed : RequestStatus

pub data AttemptStatus : Type 0 where
  submitting submitted failed confirmed reverted : AttemptStatus

pub data DeliveryStatus : Type 0 where
  pending delivered dead : DeliveryStatus

pub data GasStatus : Type 0 where
  submitted confirmed reverted failed : GasStatus

pub record App : Type 0 where
  pub id : ℕ
  pub name : Bytes
  pub treasury_address : ℕ
  pub bearer_token_hash : Bytes
  pub pool_size : ℕ
  pub default_callback_url : Option Bytes
  pub default_callback_secret : Option Bytes
  pub disabled : Bool
  pub signer_min_balance : ℤ
  pub signer_refill_amount : ℤ
  pub treasury_min_balance : ℤ

pub record SignerRow : Type 0 where
  pub address : ℕ
  pub app_id : ℕ
  pub created_at : ℕ
  pub last_used_at : Option ℕ

pub record Request : Type 0 where
  pub id : ℕ
  pub app_id : ℕ
  pub chain_id : ℕ
  pub to_address : ℕ
  pub call_data : Bytes
  pub value : ℤ
  pub gas_limit : Option ℤ
  pub deadline : Option ℤ
  pub callback_url : Option Bytes
  pub callback_metadata : Option Bytes
  pub status : RequestStatus
  pub created_at : ℕ
  pub updated_at : ℕ

pub record Attempt : Type 0 where
  pub id : ℕ
  pub request_id : ℕ
  pub signer_address : ℕ
  pub nonce : ℤ
  pub tx_hash : ℕ
  pub gas_price : ℕ
  pub status : AttemptStatus
  pub submitted_at : ℕ
  pub block_number : Option ℤ
  pub gas_used : Option ℤ
  pub effective_gas_price : Option ℕ
  pub logs : Option Bytes
  pub revert_reason : Option Bytes

pub record Delivery : Type 0 where
  pub id : ℕ
  pub request_id : ℕ
  pub url : Bytes
  pub payload : Bytes
  pub signature : Bytes
  pub attempt : ℕ
  pub status : DeliveryStatus
  pub response_code : Option ℕ
  pub last_error : Option Bytes
  pub created_at : ℕ
  pub next_attempt_at : ℕ

pub record GasAttempt : Type 0 where
  pub id : ℕ
  pub app_id : ℕ
  pub signer_address : ℕ
  pub nonce : ℤ
  pub tx_hash : ℕ
  pub amount : ℤ
  pub gas_price : ℕ
  pub status : GasStatus
  pub submitted_at : ℕ

pub record Db : Type 0 where
  pub apps : List App
  pub signers : List SignerRow
  pub requests : List Request
  pub attempts : List Attempt
  pub deliveries : List Delivery
  pub gas_attempts : List GasAttempt
