-- ===== src/Gas/Worker.antt =====
-- internal/gas/worker.go: `tick`, `processApp` and `refill`.
use txmill.Base.{
  ℕ, ℤ, pos, ◌+◌, ◌%◌, ◌^◌, Bool, true, false, ◌&&◌, ◌||◌, List, [], ◌∷◌, ◌++◌, Option, none, some,
  Result, ok, err, Error, wrap, select, map, order_by, int64, ltb, ltb_ℤ, ◌==◌, if◌then◌else◌,
}
use txmill.Store.{
  App, GasAttempt, GasStatus, Db, Postgres, recent_topup, insert_gas_attempt,
  list_signers as list_signers_stmt, select_policies,
}
use txmill.Relay.Chain.{Tx, Signed, SignTx}

-- `recentTopupWindow`, in milliseconds.
abbrev pub recent_topup_window : ℕ
recent_topup_window = 60000

abbrev pub topup_gas_limit : ℕ
topup_gas_limit = 21000

-- `appPolicy`
pub record AppPolicy : Type 0 where
  pub id : ℕ
  pub treasury_address : ℕ
  pub signer_min_balance : ℤ
  pub signer_refill_amount : ℤ
  pub treasury_min_balance : ℤ

-- `Worker`, with the answers of the database, the node, the keystore and the signing library
-- during one call.
pub record Worker : Type 0 where
  pub pg : Postgres
  pub chain_id : ℕ
  pub balance_at : ℕ → Result ℕ
  pub pending_nonce_at : ℕ → Result ℕ
  pub suggest_gas_price : Result ℕ
  pub send_transaction : Signed → Option Error
  pub load_key : ℕ → Result ℕ
  pub sign_tx : SignTx

-- What a tick changes: the database, the transactions that the node has accepted, oldest first,
-- and the apps whose low treasury was handed to the notifier. An error of the notifier is logged.
pub record GasWorld : Type 0 where
  pub db : Db
  pub sent : List Signed
  pub alerted : List ℕ

-- `listSigners`, ordered by creation and address.
unfoldable pub list_signers : Worker → ℕ → Db → Result (List ℕ)
list_signers w app d = elim (w.pg.failure (list_signers_stmt app)) [
  | some e ↦ err e
  | none ↦ ok (
      map (λ s. s.address)
        (order_by (λ s. s.created_at)
          (order_by (λ s. s.address) (select (λ s. s.app_id == app) d.signers))))
]

abbrev pub counts : GasStatus → Bool
counts GasStatus.submitted = true
counts GasStatus.confirmed = true
counts GasStatus.reverted = false
counts GasStatus.failed = false

-- `submitted_at > NOW() - window`, written without the subtraction.
abbrev pub is_recent : ℕ → ℕ → GasAttempt → Bool
is_recent now signer a =
    a.signer_address == signer
    && (counts a.status && ltb now (a.submitted_at + recent_topup_window))

abbrev pub any_recent : ℕ → ℕ → List GasAttempt → Bool
any_recent now signer [] = false
any_recent now signer (a ∷ rest) = is_recent now signer a || any_recent now signer rest

unfoldable pub has_recent_topup : Worker → ℕ → Db → Result Bool
has_recent_topup w signer d = elim (w.pg.failure (recent_topup signer)) [
  | some e ↦ err e
  | none ↦ ok (any_recent w.pg.now signer d.gas_attempts)
]

abbrev pub topup_for : AppPolicy → ℕ → ℕ → ℕ → Tx
topup_for p nonce price signer = record {
  nonce = nonce;
  to = signer;
  value = p.signer_refill_amount;
  gas_limit = topup_gas_limit;
  gas_price = price;
  call_data = [];
}

abbrev pub new_gas_attempt : Worker → AppPolicy → ℕ → ℕ → ℕ → Signed → GasAttempt
new_gas_attempt w p nonce price signer x = record {
  id = w.pg.new_id (insert_gas_attempt signer);
  app_id = p.id;
  signer_address = signer;
  nonce = int64 nonce;
  tx_hash = x.hash;
  amount = p.signer_refill_amount;
  gas_price = price;
  status = GasStatus.submitted;
  submitted_at = w.pg.now;
}

abbrev pub has_gas_hash : ℕ → List GasAttempt → Bool
has_gas_hash h [] = false
has_gas_hash h (a ∷ rest) = a.tx_hash == h || has_gas_hash h rest

-- The insertion after the send: if it fails (by itself or by the unique index), it is only logged.
unfoldable pub insert_row : Worker → AppPolicy → ℕ → ℕ → ℕ → Signed → Db → Db
insert_row w p nonce price signer x d = elim (w.pg.failure (insert_gas_attempt signer)) [
  | some e ↦ d
  | none ↦ if has_gas_hash x.hash d.gas_attempts then d else record d {
    gas_attempts = d.gas_attempts ++ new_gas_attempt w p nonce price signer x ∷ [];
  }
]

abbrev send : Worker → AppPolicy → ℕ → ℕ → ℕ → Signed → Option Error → GasWorld → Bool × GasWorld
send w p nonce price signer x (some e) g = (false, g)
send w p nonce price signer x none g =
    (true, record g { db = insert_row w p nonce price signer x g.db; sent = g.sent ++ x ∷ [] })

-- `refill`: whether it succeeded, and what it left.
unfoldable pub refill : Worker → AppPolicy → ℕ → ℕ → ℕ → ℕ → GasWorld → Bool × GasWorld
refill w p key nonce price signer g =
    elim (w.sign_tx w.chain_id (topup_for p nonce price signer) key) [
      | err e ↦ (false, g)
      | ok x ↦ send w p nonce price signer x (w.send_transaction x) g
    ]

abbrev is_false : Result Bool → Bool
is_false (ok false) = true
is_false (ok true) = false
is_false (err e) = false

abbrev pub is_low : Result ℕ → ℤ → Bool
is_low (ok balance) min = ltb_ℤ (pos balance) min
is_low (err e) min = false

-- The guards of the loop body: no recent top-up, and a balance below the minimum; an error of
-- either check skips the signer.
unfoldable pub needs_refill : Worker → AppPolicy → ℕ → Db → Bool
unfolding has_recent_topup
needs_refill w p signer d =
    is_false (has_recent_topup w signer d) && is_low (w.balance_at signer) p.signer_min_balance

-- The loop over the signers; the nonce, a uint64, moves on after a refill that succeeded.
unfoldable pub refill_all : Worker → AppPolicy → ℕ → ℕ → ℕ → List ℕ → GasWorld → GasWorld
refill_all w p key price nonce [] g = g
refill_all w p key price nonce (s ∷ rest) g =
    let (sent, g') =
      if needs_refill w p s g.db then refill w p key nonce price s g else (false, g) in
    refill_all w p key price (if sent then (nonce + 1) % 2 ^ 64 else nonce) rest g'

-- The treasury check: an alert if a minimum is set and the balance is below it.
abbrev pub check_treasury : AppPolicy → ℕ → GasWorld → GasWorld
check_treasury p balance g =
    if ltb_ℤ (pos 0) p.treasury_min_balance && ltb_ℤ (pos balance) p.treasury_min_balance
    then record g { alerted = g.alerted ++ p.id ∷ [] }
    else g

abbrev with_price :
    Worker → AppPolicy → ℕ → ℕ → List ℕ → Result ℕ → GasWorld → Result (Unit {0}) × GasWorld
with_price w p key nonce signers (err e) g = (err (wrap "gas price" e), g)
with_price w p key nonce signers (ok price) g = (ok tt, refill_all w p key price nonce signers g)

abbrev with_nonce :
    Worker → AppPolicy → ℕ → List ℕ → Result ℕ → GasWorld → Result (Unit {0}) × GasWorld
with_nonce w p key signers (err e) g = (err (wrap "treasury nonce" e), g)
with_nonce w p key signers (ok nonce) g = with_price w p key nonce signers w.suggest_gas_price g

abbrev with_key : Worker → AppPolicy → List ℕ → Result ℕ → GasWorld → Result (Unit {0}) × GasWorld
with_key w p signers (err e) g = (err (wrap "load treasury key" e), g)
with_key w p signers (ok key) g =
    with_nonce w p key signers (w.pending_nonce_at p.treasury_address) g

abbrev with_signers : Worker → AppPolicy → Result (List ℕ) → GasWorld → Result (Unit {0}) × GasWorld
with_signers w p (err e) g = (err (wrap "list signers" e), g)
with_signers w p (ok []) g = (ok tt, g)
with_signers w p (ok (s ∷ rest)) g = with_key w p (s ∷ rest) (w.load_key p.treasury_address) g

abbrev with_balance : Worker → AppPolicy → Result ℕ → GasWorld → Result (Unit {0}) × GasWorld
with_balance w p (err e) g = (err (wrap "treasury balance" e), g)
with_balance w p (ok balance) g =
    let g' = check_treasury p balance g in with_signers w p (list_signers w p.id g'.db) g'

unfoldable pub process_app : Worker → AppPolicy → GasWorld → Result (Unit {0}) × GasWorld
process_app w p g = with_balance w p (w.balance_at p.treasury_address) g

-- The apps of `tick`: those with both amounts above zero.
abbrev pub policies : List App → List AppPolicy
policies [] = []
policies (a ∷ rest) =
    if ltb_ℤ (pos 0) a.signer_min_balance && ltb_ℤ (pos 0) a.signer_refill_amount
    then record {
      id = a.id;
      treasury_address = a.treasury_address;
      signer_min_balance = a.signer_min_balance;
      signer_refill_amount = a.signer_refill_amount;
      treasury_min_balance = a.treasury_min_balance;
    }
      ∷ policies rest
    else policies rest

-- The loop: an app whose processing fails is logged. `at` gives each app its own answers.
unfoldable pub process_all : (ℕ → Worker) → List AppPolicy → GasWorld → GasWorld
process_all at [] g = g
process_all at (p ∷ rest) g = process_all at rest (process_app (at p.id) p g).1

-- `Worker.tick`
unfoldable pub tick : Postgres → (ℕ → Worker) → GasWorld → Result (Unit {0}) × GasWorld
tick pg at g = elim (pg.failure select_policies) [
  | some e ↦ (err (wrap "list apps" e), g)
  | none ↦ (ok tt, process_all at (policies g.db.apps) g)
]
