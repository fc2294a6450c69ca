-- ===== src/Relay/Service/Types.antt =====
-- The types of internal/relay/service.go, and the world that `Submit` changes.
use txmill.Base.{ℕ, ℤ, List, Option, Bytes, Error}
use txmill.Store.{Db, Postgres}
use txmill.Signer.Pool.{Pool, Backends, SignerRef}
use txmill.Relay.Chain.{Signed, Chain, SignTx}
use txmill.Relay.Enqueuer.{Enqueuer}

-- `Service`, with the state of its surroundings during one call: the Unix time, whether the
-- context is cancelled while `Checkout` waits, the answers of the database and the chain.
pub record Service : Type 0 where
  pub pg : Postgres
  pub chain : Chain
  pub backends : Backends
  pub sign_tx : SignTx
  pub webhooks : Option Enqueuer
  pub unix_now : ℕ
  pub cancelled : Option Error

-- `Value` is `none` for a nil pointer.
pub record SubmitInput : Type 0 where
  pub app_id : ℕ
  pub chain_id : ℕ
  pub to : ℕ
  pub call_data : Bytes
  pub value : Option ℤ
  pub gas_limit : ℕ
  pub deadline : ℤ
  pub callback_url : Bytes
  pub callback_metadata : Bytes

pub record SubmitResult : Type 0 where
  pub request_id : ℕ
  pub tx_hash : ℕ
  pub signer : ℕ

-- A transaction that the node has accepted, with the signer that sent it.
pub record Sent : Type 0 where
  pub by : SignerRef
  pub signed : Signed

-- What `Submit` changes: the database, the signer pool, and the accepted transactions, oldest first.
pub record World : Type 0 where
  pub db : Db
  pub pool : Pool
  pub sent : List Sent
