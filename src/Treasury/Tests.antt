-- ===== src/Treasury/Tests.antt =====
-- The theorems on internal/treasury/sweep.go at one app.
use txmill.Base.{
  ℕ, ◌+◌, ◌*◌, ◌<◌, ◌≡◌, Bool, [], ◌∷◌, Option, none, some, ok, err, Error, new, wrap, pos, refl,
  arith,
}
use txmill.Store.{App, Db}
use txmill.Relay.Chain.{SignTx, Signed}
use txmill.Relay.Effects.{SignsIts}
use txmill.Treasury.{Treasury, find_treasury, amount_for, sweep}
use txmill.Treasury.Balance.{sweep-whole_balance}

abbrev app : App
app = record {
  id = 1;
  name = [];
  treasury_address = 900;
  bearer_token_hash = [];
  pool_size = 1;
  default_callback_url = none;
  default_callback_secret = none;
  disabled = Bool.false;
  signer_min_balance = pos 0;
  signer_refill_amount = pos 0;
  treasury_min_balance = pos 0;
}

abbrev db : Db
db = record {
  apps = app ∷ [];
  signers = [];
  requests = [];
  attempts = [];
  deliveries = [];
  gas_attempts = [];
}

abbrev sign_tx : SignTx
sign_tx chain tx key = ok (record { tx = tx; from = key; hash = tx.nonce + 1000 })

sign_tx-SignsIts : SignsIts sign_tx
sign_tx-SignsIts chain tx key x e = ground arith

abbrev treasury_with : Option Error → Treasury
treasury_with answer = record {
  pg = record {
    now = 50;
    new_id = λ s. 9;
    failure = λ s. none;
    unique_violation = Error.foreign 23505;
  };
  load_key = λ address. ok 500;
  chain_id = 1;
  balance_at = λ address. ok 105007;
  pending_nonce_at = λ address. ok 4;
  suggest_gas_price = ok 5;
  send_transaction = λ x. answer;
  sign_tx = sign_tx;
}

abbrev treasury : Treasury
treasury = treasury_with none

swept :
    (sweep treasury 1 77 none db).0
    ≡ ok (record { tx_hash = 1004; from = 900; to = 77; value_wei = pos 7 })
unfolding sweep amount_for
swept = refl

sweep-whole_balance_example :
    (from nonce price n : ℕ) × (x : Signed) × (find_treasury treasury 1 db ≡ ok from)
    × ((sweep treasury 1 77 none db).1 ≡ some x)
    × (x.tx.to ≡ 77)
    × (x.tx.value ≡ pos n)
    × (x.tx.nonce ≡ nonce)
    × (x.tx.gas_price ≡ price)
    × (x.tx.gas_limit ≡ 21000)
    × (treasury.pending_nonce_at from ≡ ok nonce)
    × (treasury.suggest_gas_price ≡ ok price)
    × (0 < n)
    × (treasury.balance_at from ≡ ok (n + price * 21000))
sweep-whole_balance_example =
    sweep-whole_balance treasury 1 77 db
      (record { tx_hash = 1004; from = 900; to = 77; value_wei = pos 7 }) sign_tx-SignsIts swept

abbrev refusing : Treasury
refusing = treasury_with (some (new "insufficient funds"))

refused : (sweep refusing 1 77 none db).0 ≡ err (wrap "send" (new "insufficient funds"))
unfolding sweep amount_for
refused = refl
