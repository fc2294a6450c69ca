-- ===== src/Treasury.antt =====
-- internal/treasury/sweep.go: ether from an app's treasury to an address.
pub mod Balance
mod Tests
use txmill.Base.{
  ℕ, ℤ, pos, negsuc, ◌+◌, ◌<◌, ◌*◌, ◌-ℤ◌, ltb_ℤ, [], ◌∷◌, ◌++◌, ◌≡◌, List, Option, none, some,
  Result, ok, err, Error, sentinel, app_not_found, new, wrap, find, not, ◌==◌, arith, if◌then◌else◌,
  inl, inr, ◌⊎◌, Option-cases, Result-cases, Bool-cases,
}
use txmill.Store.{App, Db, Postgres, Statement}
use txmill.Relay.Chain.{Tx, Signed, SignTx}

abbrev sweep_gas_limit : ℕ
sweep_gas_limit = 21000

-- `Service`, with the answers of the database, the keystore, the node and the signing library.
pub record Treasury : Type 0 where
  pub pg : Postgres
  pub load_key : ℕ → Result ℕ
  pub chain_id : ℕ
  pub balance_at : ℕ → Result ℕ
  pub pending_nonce_at : ℕ → Result ℕ
  pub suggest_gas_price : Result ℕ
  pub send_transaction : Signed → Option Error
  pub sign_tx : SignTx

pub record SweepResult : Type 0 where
  pub tx_hash : ℕ
  pub from : ℕ
  pub to : ℕ
  pub value_wei : ℤ

-- The outcome of a call, with the transaction that the node has accepted, if there is one.
abbrev pub Sweeping : Type 0
Sweeping = Result SweepResult × Option Signed

abbrev treasury_of : Option App → Result ℕ
treasury_of none = err (sentinel app_not_found)
treasury_of (some a) = ok a.treasury_address

abbrev pub find_treasury : Treasury → ℕ → Db → Result ℕ
find_treasury t app d = elim (t.pg.failure Statement.select_treasury) [
  | some e ↦ err (wrap "treasury lookup" e)
  | none ↦ treasury_of (find (λ a. a.id == app) d.apps)
]

-- The balance less the gas cost, which must be above zero.
abbrev net_of : ℕ → Result ℕ → Result ℤ
net_of price (err e) = err (wrap "treasury balance" e)
net_of price (ok balance) =
    let send = pos balance -ℤ pos (price * sweep_gas_limit) in
    if ltb_ℤ (pos 0) send then ok send else err (new "treasury balance does not cover gas")

-- `none` is a nil `value`.
unfoldable pub amount_for : Treasury → ℕ → ℕ → Option ℤ → Result ℤ
amount_for t price from none = net_of price (t.balance_at from)
amount_for t price from (some v) = ok v

abbrev pub sweep_tx : ℕ → ℕ → ℕ → ℤ → Tx
sweep_tx to nonce price send = record {
  nonce = nonce;
  to = to;
  value = send;
  gas_limit = sweep_gas_limit;
  gas_price = price;
  call_data = [];
}

abbrev send_signed : Treasury → ℕ → ℕ → ℤ → Result Signed → Sweeping
send_signed t from to send (err e) = (err (wrap "sign" e), none)
send_signed t from to send (ok x) = elim (t.send_transaction x) [
  | some e ↦ (err (wrap "send" e), none)
  | none ↦ (ok (record { tx_hash = x.hash; from = from; to = to; value_wei = send }), some x)
]

abbrev with_amount : Treasury → ℕ → ℕ → ℕ → ℕ → ℕ → Result ℤ → Sweeping
with_amount t from to key nonce price (err e) = (err e, none)
with_amount t from to key nonce price (ok send) =
    send_signed t from to send (t.sign_tx t.chain_id (sweep_tx to nonce price send) key)

abbrev with_price : Treasury → ℕ → ℕ → Option ℤ → ℕ → ℕ → Result ℕ → Sweeping
with_price t from to value key nonce (err e) = (err (wrap "gas price" e), none)
with_price t from to value key nonce (ok price) =
    with_amount t from to key nonce price (amount_for t price from value)

abbrev with_nonce : Treasury → ℕ → ℕ → Option ℤ → ℕ → Result ℕ → Sweeping
with_nonce t from to value key (err e) = (err (wrap "treasury nonce" e), none)
with_nonce t from to value key (ok nonce) = with_price t from to value key nonce t.suggest_gas_price

abbrev with_key : Treasury → ℕ → ℕ → Option ℤ → Result ℕ → Sweeping
with_key t from to value (err e) = (err (wrap "load treasury key" e), none)
with_key t from to value (ok key) = with_nonce t from to value key (t.pending_nonce_at from)

abbrev with_treasury : Treasury → ℕ → Option ℤ → Result ℕ → Sweeping
with_treasury t to value (err e) = (err e, none)
with_treasury t to value (ok from) = with_key t from to value (t.load_key from)

-- `Service.Sweep`
unfoldable pub sweep : Treasury → ℕ → ℕ → Option ℤ → Db → Sweeping
sweep t app to value d = with_treasury t to value (find_treasury t app d)
