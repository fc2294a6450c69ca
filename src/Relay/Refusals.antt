-- ===== src/Relay/Refusals.antt =====
-- internal/relay/service.go: the errors that a call of `Submit` passes on as they are.
use txmill.Base.{
  ℕ, ◌≡◌, ◌≢◌, ◌∙◌, Option, some, Result, err, Error, sentinel, Sentinel, arith, inl, inr,
  Option-cases, Result-cases,
}
use txmill.Signer.{Signer, use_nonce}
use txmill.Signer.Pool.{SignerRef}
use txmill.Relay.Chain.{Signed}
use txmill.Relay.Service.{
  Service, SubmitInput, SubmitResult, World, validate, insert_attempt, mark_submitted,
  gas_limit_for, transaction_for, write_signer, record_attempt, sign_and_send, relay_with,
  broadcast, submit,
}
use txmill.Relay.Courses.{
  Course, invalid, not_inserted, not_loaded, waiting, not_lent, dangling, unreturned, relayed,
  holding, submit-Course,
}

module _ (s : Service) (i : SubmitInput) (id : ℕ) (ref : SignerRef) (why : Sentinel) where
  broadcast_wraps :
      (sig : Signer) (x : Signed) (attempt : ℕ) (w : World)
      → (broadcast s ref sig x id attempt w).0 ≢ err (sentinel why)
  unfolding broadcast
  broadcast_wraps sig x attempt w h = elim (Option-cases (s.chain.send_transaction x)) [
    | inr (e, refused) ↦ absurd (ground arith)
    | inl taken ↦ elim (Result-cases (mark_submitted s id attempt w.db).0) [
      | inl (e, unmarked) ↦ absurd (ground arith)
      | inr (u, marked) ↦ absurd (ground arith)
    ]
  ]

  record_attempt_wraps :
      (sig : Signer) (x : Signed) (nonce price : ℕ) (w : World)
      → (record_attempt s ref sig x nonce price id w).0 ≢ err (sentinel why)
  unfolding record_attempt
  record_attempt_wraps sig x nonce price w h =
      let row = insert_attempt s.pg id sig.address nonce x.hash price w.db in
      elim (Result-cases row.0) [
        | inl (e, unstored) ↦ absurd (ground arith)
        | inr (attempt, stored) ↦
            broadcast_wraps sig x attempt (record w { db = row.1 }) (ground arith)
      ]

  relay_with_wraps :
      (sig : Signer) (w : World) → (relay_with s i ref sig id w).0 ≢ err (sentinel why)
  unfolding relay_with sign_and_send
  relay_with_wraps sig w h = elim (Result-cases (gas_limit_for s sig i)) [
    | inl (e, unlimited) ↦ absurd (ground arith)
    | inr (gas, limited) ↦ elim (Result-cases s.chain.suggest_gas_price) [
      | inl (e, unpriced) ↦ absurd (ground arith)
      | inr (price, priced) ↦
          let nonce = (use_nonce sig).0 in
          let sig' = (use_nonce sig).1 in
          elim (Result-cases
            (s.sign_tx s.chain.chain_id (transaction_for i nonce gas price) sig.key)) [
              | inl (e, unsigned) ↦ absurd (ground arith)
              | inr (x, signs) ↦
                  record_attempt_wraps sig' x nonce price (write_signer ref sig' w) (ground arith)
            ]
    ]
  ]

module _ (s : Service) (i : SubmitInput) (w : World) (why : Sentinel) where
  Course-validate :
      (o : Option (Result SubmitResult)) (w' : World)
      → Course s i w o w'
      → o ≡ some (err (sentinel why))
      → validate s i ≡ err (sentinel why)
  Course-validate o w' (invalid e v x d) h = v ∙ ground arith
  Course-validate o w' (not_inserted e v n x d) h = absurd (ground arith)
  Course-validate o w' (not_loaded a e v n l x d) h = absurd (ground arith)
  Course-validate o w' (waiting a v n l c x d) h = absurd (ground arith)
  Course-validate o w' (not_lent a e q v n l c x d) h = absurd (ground arith)
  Course-validate o w' (dangling a ref q v n l c k x d) h = absurd (ground arith)
  Course-validate o w' (unreturned a ref q sig v n l c k b x d) h = absurd (ground arith)
  Course-validate o w' (relayed a ref q sig p v n l c k b x d) h =
      absurd (relay_with_wraps s i a ref why sig (holding s i w q) (ground arith))

  -- Only the validation ends a call with an error that is not wrapped in the text of a later stage.
  pub submit-validate :
      (submit s i w).0 ≡ some (err (sentinel why)) → validate s i ≡ err (sentinel why)
  submit-validate h = Course-validate _ _ (submit-Course s i w) h

pub submit_invalid :
    (s : Service) (i : SubmitInput) (w : World) (e : Error)
    → validate s i ≡ err e
    → submit s i w ≡ (some (err e), w)
unfolding submit
submit_invalid s i w e h = ground arith
