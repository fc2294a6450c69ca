-- ===== src/Treasury/Balance.antt =====
-- internal/treasury/sweep.go: what a sweep sends, and that it sends nothing where it fails.
use txmill.Base.{
  ℕ, ℤ, pos, negsuc, ◌+◌, ◌<◌, ◌*◌, ◌≡◌, ap, ◌∙◌, Option, none, some, ok, err, Error, arith, inl,
  inr, Option-cases, Result-cases,
}
use txmill.Store.{Db}
use txmill.Relay.Chain.{Signed}
use txmill.Relay.Effects.{SignsIts}
use txmill.Treasury.{Treasury, SweepResult, find_treasury, amount_for, sweep_tx, sweep}

-- What a sweep of the whole balance sends.
whole_balance :
    (t : Treasury) (price from balance : ℕ) (send : ℤ)
    → t.balance_at from ≡ ok balance
    → amount_for t price from none ≡ ok send
    → (n : ℕ) × (send ≡ pos n) × (0 < n) × (n + price * 21000 ≡ balance)
unfolding amount_for
whole_balance t price from balance (pos n) b h = (n, ground arith, ground arith, ground arith)
whole_balance t price from balance (negsuc n) b h = absurd (ground arith)

balance_read :
    (t : Treasury) (price from : ℕ) (send : ℤ)
    → amount_for t price from none ≡ ok send
    → (balance : ℕ) × (t.balance_at from ≡ ok balance)
unfolding amount_for
balance_read t price from send h = elim (Result-cases (t.balance_at from)) [
  | inl (e, failed) ↦ absurd (ground arith)
  | inr (balance, read) ↦ (balance, read)
]

-- A sweep that succeeds has sent one transaction: from the app's treasury with its pending nonce at
-- the node's gas price, for the amount that `amount_for` gives. It is assumed that the signing
-- library signs what it is given.
pub sweep_sends :
    (t : Treasury) (app to : ℕ) (value : Option ℤ) (d : Db) (res : SweepResult)
    → SignsIts t.sign_tx
    → (sweep t app to value d).0 ≡ ok res
    → (from nonce price : ℕ) × (x : Signed) × (find_treasury t app d ≡ ok from)
      × (t.pending_nonce_at from ≡ ok nonce)
      × (t.suggest_gas_price ≡ ok price)
      × (amount_for t price from value ≡ ok res.value_wei)
      × (x.tx ≡ sweep_tx to nonce price res.value_wei)
      × ((sweep t app to value d).1 ≡ some x)
unfolding sweep
sweep_sends t app to value d res signs h = elim (Result-cases (find_treasury t app d)) [
  | inl (e, f) ↦ absurd (ground arith)
  | inr (from, f) ↦ elim (Result-cases (t.load_key from)) [
    | inl (e, k) ↦ absurd (ground arith)
    | inr (key, k) ↦ elim (Result-cases (t.pending_nonce_at from)) [
      | inl (e, p) ↦ absurd (ground arith)
      | inr (nonce, p) ↦ elim (Result-cases t.suggest_gas_price) [
        | inl (e, g) ↦ absurd (ground arith)
        | inr (price, g) ↦ elim (Result-cases (amount_for t price from value)) [
          | inl (e, a) ↦ absurd (ground arith)
          | inr (send, a) ↦
              elim (Result-cases (t.sign_tx t.chain_id (sweep_tx to nonce price send) key)) [
                | inl (e, s) ↦ absurd (ground arith)
                | inr (x, s) ↦ elim (Option-cases (t.send_transaction x)) [
                  | inr (e, refused) ↦ absurd (ground arith)
                  | inl accepted ↦
                      let same : send ≡ res.value_wei = ground arith in
                      (
                        from,
                        nonce,
                        price,
                        x,
                        f,
                        p,
                        g,
                        ground (arith, a, same),
                        ground (arith, signs _ _ _ x s, same),
                        ground arith,
                      )
                ]
              ]
        ]
      ]
    ]
  ]
]

-- A sweep that fails has sent nothing.
pub sweep_fails :
    (t : Treasury) (app to : ℕ) (value : Option ℤ) (d : Db) {e : Error}
    → (sweep t app to value d).0 ≡ err e
    → (sweep t app to value d).1 ≡ none
unfolding sweep
sweep_fails t app to value d h = ground arith

-- A sweep without a value that succeeds has sent one transaction to the given address, at the
-- treasury's pending nonce and the node's gas price and with the gas limit 21000: its value is more
-- than nothing, and the value and the most that the gas can cost are together exactly the treasury's
-- balance. It is assumed that the signing library signs what it is given.
pub sweep-whole_balance :
    (t : Treasury) (app to : ℕ) (d : Db) (res : SweepResult)
    → SignsIts t.sign_tx
    → (sweep t app to none d).0 ≡ ok res
    → (from nonce price n : ℕ) × (x : Signed) × (find_treasury t app d ≡ ok from)
      × ((sweep t app to none d).1 ≡ some x)
      × (x.tx.to ≡ to)
      × (x.tx.value ≡ pos n)
      × (x.tx.nonce ≡ nonce)
      × (x.tx.gas_price ≡ price)
      × (x.tx.gas_limit ≡ 21000)
      × (t.pending_nonce_at from ≡ ok nonce)
      × (t.suggest_gas_price ≡ ok price)
      × (0 < n)
      × (t.balance_at from ≡ ok (n + price * 21000))
sweep-whole_balance t app to d res signs h =
    let (from, nonce, price, x, f, p, g, amount, tx, sent) =
      sweep_sends t app to none d res signs h in
    let (balance, read) = balance_read t price from res.value_wei amount in
    let (n, whole, positive, total) =
      whole_balance t price from balance res.value_wei read amount in
    (
      from,
      nonce,
      price,
      n,
      x,
      f,
      sent,
      ap (λ y. y.to) tx,
      ap (λ y. y.value) tx ∙ whole,
      ap (λ y. y.nonce) tx,
      ap (λ y. y.gas_price) tx,
      ap (λ y. y.gas_limit) tx,
      p,
      g,
      positive,
      ground (arith, read, total),
    )
