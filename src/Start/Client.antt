-- ===== src/Start/Client.antt =====
-- internal/chain/client.go: the client that `Dial` makes, as the other parts use it, and which requests a
-- server that it serves refuses for their chain.
use txmill.Base.{
  some, ℕ, ◌<◌, ◌%◌, ◌^◌, ◌≡◌, ◌≢◌, ◌↔◌, ap, ◌∙◌, inl, inr, ℤ, pos, negsuc, Option, none, Bytes,
  Result, ok, err, Error, sentinel, chain_id_mismatch, arith, suc, Bool, Bool-cases, Option-cases,
  Result-cases, ◌==◌,
}
use txmill.Relay.Chain.{Chain, CallMsg, Signed}
use txmill.Relay.Watcher.{ReceiptAnswer}
use txmill.Relay.Service.{Service, SubmitInput, World, validate, submit}
use txmill.Relay.Refusals.{submit-validate, submit_invalid}
use txmill.Start.{Surroundings, dial, is_chain}
use txmill.Start.Ready.{is_chain-eq}

-- `*ethclient.Client`, as the node answers during one call; no block means the latest one, and
-- `lost_reply` is true of the transactions that it takes although the reply is lost.
pub record Rpc : Type 0 where
  pub balance_at : ℕ → Option ℤ → Result ℕ
  pub pending_nonce_at : ℕ → Result ℕ
  pub suggest_gas_price : Result ℕ
  pub estimate_gas : CallMsg → Result ℕ
  pub send_transaction : Signed → Option Error
  pub lost_reply : Signed → Bool
  pub transaction_receipt : ℕ → ReceiptAnswer
  pub call_contract : CallMsg → Option ℤ → Result Bytes

-- `Client`
pub record Client : Type 0 where
  pub rpc : Rpc
  pub chain_id : ℤ

abbrev dialled : Rpc → Result ℤ → Result Client
dialled rpc (err e) = err e
dialled rpc (ok id) = ok (record { rpc = rpc; chain_id = id })

-- `Dial`, with the client that it returns.
abbrev pub dial_client : Surroundings → Rpc → ℕ → Result Client
dial_client x rpc expected = dialled rpc (dial x expected)

abbrev pub chain_id : Client → ℤ
chain_id c = c.chain_id

abbrev pub balance_at : Client → ℕ → Result ℕ
balance_at c addr = c.rpc.balance_at addr none

abbrev pub pending_nonce_at : Client → ℕ → Result ℕ
pending_nonce_at c addr = c.rpc.pending_nonce_at addr

abbrev pub suggest_gas_price : Client → Result ℕ
suggest_gas_price c = c.rpc.suggest_gas_price

abbrev pub estimate_gas : Client → CallMsg → Result ℕ
estimate_gas c msg = c.rpc.estimate_gas msg

abbrev pub send_transaction : Client → Signed → Option Error
send_transaction c tx = c.rpc.send_transaction tx

abbrev pub transaction_receipt : Client → ℕ → ReceiptAnswer
transaction_receipt c hash = c.rpc.transaction_receipt hash

abbrev pub call_contract : Client → CallMsg → Option ℤ → Result Bytes
call_contract c msg block_number = c.rpc.call_contract msg block_number

-- The absolute value, whose low 64 bits are `big.Int.Uint64`.
abbrev absolute : ℤ → ℕ
absolute (pos n) = n
absolute (negsuc n) = suc n

-- The relay's interface `Chain`, filled by the client.
abbrev pub relay_chain : Client → Chain
relay_chain c = record {
  chain_id = absolute (chain_id c);
  estimate_gas = estimate_gas c;
  suggest_gas_price = suggest_gas_price c;
  send_transaction = send_transaction c;
  lost_reply = c.rpc.lost_reply;
}

dialled_chain :
    (x : Surroundings) (rpc : Rpc) (n : ℕ) (c : Client)
    → dial_client x rpc n ≡ ok c
    → c.chain_id ≡ pos n
unfolding dial
dialled_chain x rpc n c h = elim (Option-cases x.dial_context) [
  | inr (e, bad) ↦ absurd (ground arith)
  | inl connects ↦ elim (Result-cases x.rpc_chain_id) [
    | inl (e, bad) ↦ absurd (ground arith)
    | inr (got, answers) ↦ elim (Bool-cases (is_chain got n)) [
      | inr other ↦ absurd (ground arith)
      | inl same ↦
          let is = is_chain-eq got n same in let kept : c.chain_id ≡ got = ground arith in kept ∙ is
    ]
  ]
]

validate_chain :
    (x : Surroundings) (rpc : Rpc) (n : ℕ) (c : Client) (s : Service) (i : SubmitInput)
    → n < 2 ^ 64
    → dial_client x rpc n ≡ ok c
    → s.chain ≡ relay_chain c
    → (validate s i ≡ err (sentinel chain_id_mismatch)) ↔ (i.chain_id ≢ n)
unfolding validate
validate_chain x rpc n c s i small h uses =
    let kept = dialled_chain x rpc n c h in
    let id : s.chain.chain_id ≡ n = ap (λ y. y.chain_id) uses ∙ ap absolute kept in
    let modulus : s.chain.chain_id % 2 ^ 64 ≡ n = omega (arith, id, small) in
    elim (Bool-cases (i.chain_id == n)) [
      | inl same ↦ (λ e. absurd (ground (arith, modulus)), λ ne. absurd (ground arith))
      | inr other ↦ (λ e same. ground (arith, same), λ ne. ground (arith, modulus))
    ]

-- With a client that `Dial` made for a chain id, `Submit` ends with the error of a wrong chain exactly
-- for the requests for another chain id, and then it has changed nothing. It is assumed that the
-- chain id is a uint64.
pub dial-submit :
    (x : Surroundings) (rpc : Rpc) (n : ℕ) (c : Client) (s : Service) (i : SubmitInput) (w : World)
    → n < 2 ^ 64
    → dial_client x rpc n ≡ ok c
    → s.chain ≡ relay_chain c
    → ((submit s i w).0 ≡ some (err (sentinel chain_id_mismatch)) ↔ (i.chain_id ≢ n))
      × (i.chain_id ≢ n → (submit s i w).1 ≡ w)
dial-submit x rpc n c s i w small h uses =
    let refuses = validate_chain x rpc n c s i small h uses in
    let wrong =
      λ (ne : i.chain_id ≢ n). submit_invalid s i w (sentinel chain_id_mismatch) (refuses.1 ne) in
    (
      (
        (λ e. refuses.0 (submit-validate s i w chain_id_mismatch e)),
        λ ne. ap (λ r. r.0) (wrong ne),
      ),
      λ ne. ap (λ r. r.1) (wrong ne),
    )
