-- ===== src/Relay/Lost.antt =====
-- internal/relay/service.go: a broadcast whose reply is lost, after the node has taken the transaction.
use txmill.Base.{
  ℕ, ◌<◌, ◌^◌, ◌≡◌, ap, ◌∙◌, true, [], ◌∷◌, ◌++◌, some, arith, inl, inr, Option-cases, Result-cases,
}
use txmill.Signer.{Signer, use_nonce, rewind_nonce}
use txmill.Signer.Nonces.{use-rewind}
use txmill.Signer.Pool.{SignerRef, deref, store}
use txmill.Signer.Cells.{deref-store_self}
use txmill.Relay.Chain.{Signed}
use txmill.Relay.Effects.{SignsIts}
use txmill.Relay.Retry.{fails_at}
use txmill.Relay.Service.{
  Service, SubmitInput, World, insert_attempt, mark_submitted, relay_with, sign_and_send,
  record_attempt, broadcast, gas_limit_for, transaction_for, write_signer,
}

module _ (s : Service) (i : SubmitInput) (ref : SignerRef) (sig : Signer) (id : ℕ)
    (lost : (x : Signed) → s.chain.lost_reply x ≡ true) where
  broadcast_lost :
      (sig' : Signer) (x : Signed) (attempt : ℕ) (w : World)
      → fails_at "submit" (broadcast s ref sig' x id attempt w).0 ≡ true
      → ((broadcast s ref sig' x id attempt w).1.sent
          ≡ w.sent ++ record { by = ref; signed = x } ∷ [])
        × ((broadcast s ref sig' x id attempt w).1.pool ≡ store w.pool ref (rewind_nonce sig'))
  unfolding broadcast
  broadcast_lost sig' x attempt w f = elim (Option-cases (s.chain.send_transaction x)) [
    | inr (e, refused) ↦ (ground (arith, lost x), ground arith)
    | inl accepted ↦ elim (Result-cases (mark_submitted s id attempt w.db).0) [
      | inl (e, failed) ↦ absurd (ground arith)
      | inr (u, marked) ↦ absurd (ground arith)
    ]
  ]

  record_attempt_lost :
      (sig' : Signer) (x : Signed) (nonce price : ℕ) (w : World)
      → fails_at "submit" (record_attempt s ref sig' x nonce price id w).0 ≡ true
      → ((record_attempt s ref sig' x nonce price id w).1.sent
          ≡ w.sent ++ record { by = ref; signed = x } ∷ [])
        × ((record_attempt s ref sig' x nonce price id w).1.pool
            ≡ store w.pool ref (rewind_nonce sig'))
  unfolding record_attempt
  record_attempt_lost sig' x nonce price w f =
      let row = insert_attempt s.pg id sig'.address nonce x.hash price w.db in
      elim (Result-cases row.0) [
        | inl (e, unstored) ↦ absurd (ground arith)
        | inr (attempt, stored) ↦
            let there = record w { db = row.1 } in
            let sending = broadcast_lost sig' x attempt there (ground arith) in
            (ground (arith, sending), ground (arith, sending))
      ]

  -- Where a call of `Submit`, with a signer in its hands, fails at the broadcast although the node has
  -- taken the transaction, one transaction with the signer's nonce is sent, and the signer is as it was
  -- before: its counter is back at the nonce that is sent already, for its next transaction. It is
  -- assumed that the node takes every transaction whose broadcast ends with an error, that the signing
  -- library signs what it is given, that the signer is in memory, and that its counter is a uint64.
  pub lost_reply-repeats :
      (w : World)
      → SignsIts s.sign_tx
      → deref w.pool ref ≡ some sig
      → sig.nonce < 2 ^ 64
      → fails_at "submit" (relay_with s i ref sig id w).0 ≡ true
      → (x : Signed) × (x.tx.nonce ≡ sig.nonce)
        × ((relay_with s i ref sig id w).1.sent ≡ w.sent ++ record { by = ref; signed = x } ∷ [])
        × (deref (relay_with s i ref sig id w).1.pool ref ≡ some sig)
  unfolding relay_with sign_and_send
  lost_reply-repeats w its held small f = elim (Result-cases (gas_limit_for s sig i)) [
    | inl (e, unlimited) ↦ absurd (ground arith)
    | inr (gas, limited) ↦ elim (Result-cases s.chain.suggest_gas_price) [
      | inl (e, unpriced) ↦ absurd (ground arith)
      | inr (price, priced) ↦
          let tx = transaction_for i (use_nonce sig).0 gas price in
          let sig' = (use_nonce sig).1 in
          elim (Result-cases (s.sign_tx s.chain.chain_id tx sig.key)) [
            | inl (e, unsigned) ↦ absurd (ground arith)
            | inr (x, signs) ↦
                let there = write_signer ref sig' w in
                let sending =
                  record_attempt_lost sig' x (use_nonce sig).0 price there (ground arith) in
                let moved : (relay_with s i ref sig id w).1.pool
                    ≡ store there.pool ref (rewind_nonce sig') =
                  ground (arith, sending) in
                let back = use-rewind sig small in
                (
                  x,
                  ap (λ y. y.nonce) (its s.chain.chain_id tx sig.key x signs) ∙ back.0,
                  ground (arith, sending),
                  ap (λ p. deref p ref) moved
                      ∙ deref-store_self there.pool ref (rewind_nonce sig')
                          (deref-store_self w.pool ref sig' held)
                      ∙ ap some back.2,
                )
          ]
    ]
  ]
