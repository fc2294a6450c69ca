-- ===== src/Relay/Chain.antt =====
-- What internal/relay/service.go uses of go-ethereum: transactions, the RPC client's answers during
-- one call, and the signing of a transaction.
use txmill.Base.{ℕ, ℤ, Option, some, Bool, false, ◌≡◌, Bytes, Result, Error}

pub record CallMsg : Type 0 where
  pub from : ℕ
  pub to : ℕ
  pub value : ℤ
  pub call_data : Bytes

-- A legacy transaction, as `types.NewTransaction` takes its fields.
pub record Tx : Type 0 where
  pub nonce : ℕ
  pub to : ℕ
  pub value : ℤ
  pub gas_limit : ℕ
  pub gas_price : ℕ
  pub call_data : Bytes

-- A signed transaction with the address that signed it and its `Hash()`.
pub record Signed : Type 0 where
  pub tx : Tx
  pub from : ℕ
  pub hash : ℕ

-- The interface `Chain`. Gas prices and balances come from the node as non-negative quantities. A call
-- of `SendTransaction` that ends with an error may have reached the node all the same, when it is the
-- reply that was lost: then `lost_reply` is true of the transaction.
pub record Chain : Type 0 where
  pub chain_id : ℕ
  pub estimate_gas : CallMsg → Result ℕ
  pub suggest_gas_price : Result ℕ
  pub send_transaction : Signed → Option Error
  pub lost_reply : Signed → Bool

-- An error of `SendTransaction` means that the node has not taken the transaction.
abbrev pub KeepsReplies : Chain → Type 0
KeepsReplies c = (x : Signed) (e : Error) → c.send_transaction x ≡ some e → c.lost_reply x ≡ false

-- `types.SignTx(tx, EIP155Signer(chain), key)`.
abbrev pub SignTx : Type 0
SignTx = ℕ → Tx → ℕ → Result Signed
