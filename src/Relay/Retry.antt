-- ===== src/Relay/Retry.antt =====
-- internal/relay/service.go and migrations/00003_relay.sql: a broadcast that failed, tried again.
use text.Mathlib.Text.{◌==◌ as str_eq}
use txmill.Base.{
  ℕ, ◌≡◌, refl, ap, ◌∙◌, Bool, true, false, List, [], ◌∷◌, ◌++◌, none, Result, ok, err, wrap, arith,
  inl, inr, Option-cases, Result-cases, ◌==◌, String, update_where,
}
use txmill.Store.{Postgres, Db, Attempt, AttemptStatus, Statement}
use txmill.Signer.{Signer, use_nonce}
use txmill.Signer.Pool.{SignerRef}
use txmill.Relay.Chain.{Signed}
use txmill.Relay.Service.{
  Service, SubmitInput, World, insert_attempt, new_attempt, has_hash, mark_attempt_status,
  mark_submitted, relay_with, sign_and_send, record_attempt, broadcast, gas_limit_for,
  transaction_for, write_signer,
}

-- The call failed, and its error has this label.
abbrev pub fails_at : {A : Type 0} → String → Result A → Bool
fails_at text (ok a) = false
fails_at text (err (wrap label cause)) = str_eq label text
fails_at text (err e) = false

has_hash-append :
    (h : ℕ) (xs : List Attempt) (a : Attempt) → a.tx_hash ≡ h → has_hash h (xs ++ a ∷ []) ≡ true
has_hash-append h [] a e = ground arith
has_hash-append h (x ∷ xs) a e = ground (arith, has_hash-append h xs a e)

-- Changing a status leaves the hashes.
has_hash-set :
    (h id : ℕ) (st : AttemptStatus) (xs : List Attempt)
    → has_hash h (update_where (λ a. a.id == id) (λ a. record a { status = st }) xs) ≡ has_hash h xs
has_hash-set h id st [] = refl
has_hash-set h id st (x ∷ xs) = ground (arith, has_hash-set h id st xs)

insert_attempt-stores :
    (pg : Postgres) (request address nonce hash price : ℕ) {a : ℕ} (d : Db)
    → (insert_attempt pg request address nonce hash price d).0 ≡ ok a
    → has_hash hash (insert_attempt pg request address nonce hash price d).1.attempts ≡ true
unfolding insert_attempt
insert_attempt-stores pg request address nonce hash price d e =
    ground (
      arith,
      has_hash-append hash d.attempts (new_attempt pg request address nonce hash price) refl,
    )

insert_attempt-refuses :
    (pg : Postgres) (request address nonce hash price : ℕ) (d : Db)
    → pg.failure Statement.insert_attempt ≡ none
    → has_hash hash d.attempts ≡ true
    → insert_attempt pg request address nonce hash price d ≡ (err pg.unique_violation, d)
unfolding insert_attempt
insert_attempt-refuses pg request address nonce hash price d works h = ground arith

module _ (s : Service) (i : SubmitInput) (ref : SignerRef) (sig : Signer) (id : ℕ) where
  -- The transaction that the call signs, once gas and price are known.
  abbrev signing : ℕ → ℕ → Result Signed
  signing gas price =
      s.sign_tx s.chain.chain_id (transaction_for i (use_nonce sig).0 gas price) sig.key

  broadcast_failed :
      (sig' : Signer) (x : Signed) (attempt : ℕ) (w : World)
      → fails_at "submit" (broadcast s ref sig' x id attempt w).0 ≡ true
      → has_hash x.hash w.db.attempts ≡ true
      → has_hash x.hash (broadcast s ref sig' x id attempt w).1.db.attempts ≡ true
  unfolding broadcast mark_attempt_status
  broadcast_failed sig' x attempt w f h = elim (Option-cases (s.chain.send_transaction x)) [
    | inr (e, refused) ↦
        ground (arith, has_hash-set x.hash attempt AttemptStatus.failed w.db.attempts)
    | inl accepted ↦ elim (Result-cases (mark_submitted s id attempt w.db).0) [
      | inl (e, failed) ↦ ground arith
      | inr (u, marked) ↦ ground arith
    ]
  ]

  record_failed :
      (sig' : Signer) (x : Signed) (nonce price : ℕ) (w : World)
      → fails_at "submit" (record_attempt s ref sig' x nonce price id w).0 ≡ true
      → has_hash x.hash (record_attempt s ref sig' x nonce price id w).1.db.attempts ≡ true
  unfolding record_attempt
  record_failed sig' x nonce price w f =
      let row = insert_attempt s.pg id sig'.address nonce x.hash price w.db in
      elim (Result-cases row.0) [
        | inl (e, refused) ↦ ground arith
        | inr (attempt, stored) ↦
            let w₁ = record w { db = row.1 } in
            ground (
              arith,
              insert_attempt-stores s.pg id sig'.address nonce x.hash price w.db stored,
              broadcast_failed sig' x attempt w₁,
            )
      ]

  send_failed :
      (gas price : ℕ) (w : World)
      → fails_at "submit" (sign_and_send s i ref sig gas price id w).0 ≡ true
      → (x : Signed) × (signing gas price ≡ ok x)
        × (has_hash x.hash (sign_and_send s i ref sig gas price id w).1.db.attempts ≡ true)
  unfolding sign_and_send
  send_failed gas price w f = elim (Result-cases (signing gas price)) [
    | inl (e, failed) ↦ absurd (ground arith)
    | inr (x, signed) ↦
        let w₁ = write_signer ref (use_nonce sig).1 w in
        let stored = record_failed (use_nonce sig).1 x (use_nonce sig).0 price w₁ in
        (x, signed, ground (arith, stored))
  ]

  relay_failed :
      (w : World)
      → fails_at "submit" (relay_with s i ref sig id w).0 ≡ true
      → (gas price : ℕ) × (x : Signed) × (gas_limit_for s sig i ≡ ok gas)
        × (s.chain.suggest_gas_price ≡ ok price)
        × (signing gas price ≡ ok x)
        × (has_hash x.hash (relay_with s i ref sig id w).1.db.attempts ≡ true)
  unfolding relay_with
  relay_failed w f = elim (Result-cases (gas_limit_for s sig i)) [
    | inl (e, failed) ↦ absurd (ground arith)
    | inr (gas, limited) ↦ elim (Result-cases s.chain.suggest_gas_price) [
      | inl (e, failed) ↦ absurd (ground arith)
      | inr (price, priced) ↦
          let (x, signed, stored) = send_failed gas price w (ground arith) in
          (gas, price, x, limited, priced, signed, ground (arith, stored))
    ]
  ]

-- After a broadcast that the node refused, with the attempts in the database as that call left them,
-- the same call on the same signer, with the gas limit and gas price unchanged, sends nothing,
-- whatever the node would now answer: the insertion of the attempt fails by the unique index on
-- `tx_hash`. It is assumed that this insertion does not fail otherwise.
pub retry_refused :
    (s s' : Service) (i : SubmitInput) (ref : SignerRef) (sig : Signer) (id id' : ℕ) (w w' : World)
    → fails_at "submit" (relay_with s i ref sig id w).0 ≡ true
    → w'.db.attempts ≡ (relay_with s i ref sig id w).1.db.attempts
    → s'.sign_tx ≡ s.sign_tx
    → s'.chain.chain_id ≡ s.chain.chain_id
    → gas_limit_for s' sig i ≡ gas_limit_for s sig i
    → s'.chain.suggest_gas_price ≡ s.chain.suggest_gas_price
    → s'.pg.failure Statement.insert_attempt ≡ none
    → ((relay_with s' i ref sig id' w').0 ≡ err (wrap "insert attempt" s'.pg.unique_violation))
      × ((relay_with s' i ref sig id' w').1.sent ≡ w'.sent)
unfolding relay_with sign_and_send record_attempt
retry_refused s s' i ref sig id id' w w' failed same signs chain gas_same price_same works =
    let (gas, price, x, limited, priced, signed, stored) = relay_failed s i ref sig id w failed in
    let tx = transaction_for i (use_nonce sig).0 gas price in
    let again : s'.sign_tx s'.chain.chain_id tx sig.key ≡ ok x =
      ap (λ f. f s'.chain.chain_id tx sig.key) signs
      ∙ ap (λ c. s.sign_tx c tx sig.key) chain
      ∙ signed in
    let there : has_hash x.hash w'.db.attempts ≡ true = ap (has_hash x.hash) same ∙ stored in
    let refuses =
      insert_attempt-refuses s'.pg id' (use_nonce sig).1.address (use_nonce sig).0 x.hash price
        w'.db works there in
    (ground (arith, again, refuses), ground (arith, again, refuses))
