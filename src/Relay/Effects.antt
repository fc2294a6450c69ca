-- ===== src/Relay/Effects.antt =====
-- internal/relay/service.go: what the part of `Submit` from `UseNonce` on does to the signer and to
-- the chain, on every path.
use txmill.Base.{
  ℕ, ◌+◌, ◌<◌, ◌^◌, ◌≡◌, ap, subst, ◌∙◌, false, [], ◌∷◌, ◌++◌, none, some, Result, ok, Error, arith,
  inl, inr, Option-cases, Result-cases,
}
use txmill.Signer.{Signer, use_nonce, rewind_nonce}
use txmill.Signer.Nonces.{use-rewind}
use txmill.Signer.Pool.{SignerRef, deref, store}
use txmill.Signer.Cells.{same_ref, deref-store_self, deref-store_ne}
use txmill.Relay.Chain.{Tx, Signed, SignTx, KeepsReplies}
use txmill.Relay.Service.{
  Service, SubmitInput, World, broadcast, record_attempt, sign_and_send, relay_with, insert_attempt,
  gas_limit_for, transaction_for, write_signer,
}

-- `types.SignTx` returns the transaction that it was given, signed.
abbrev pub SignsIts : SignTx → Type 0
SignsIts sign = (chain : ℕ) (tx : Tx) (key : ℕ) (x : Signed) → sign chain tx key ≡ ok x → x.tx ≡ tx

-- From `w` to `w'`, with `sig` checked out as `ref`: either nothing was sent and the signer is as
-- it was, or one transaction with the signer's nonce was sent and the nonce has moved on by one.
-- No other signer changes.
pub data Effect (ref : SignerRef) (sig : Signer) (w w' : World) : Type 0 where
  unsent :
      w'.sent ≡ w.sent
      → deref w'.pool ref ≡ some sig
      → ((r : SignerRef) → same_ref ref r ≡ false → deref w'.pool r ≡ deref w.pool r)
      → Effect ref sig w w'
  sent_one :
      (x : Signed)
      → x.tx.nonce ≡ sig.nonce
      → w'.sent ≡ w.sent ++ record { by = ref; signed = x } ∷ []
      → deref w'.pool ref ≡ some (record sig { nonce = sig.nonce + 1 })
      → ((r : SignerRef) → same_ref ref r ≡ false → deref w'.pool r ≡ deref w.pool r)
      → Effect ref sig w w'

module _ (s : Service) (ref : SignerRef) (sig : Signer) (x : Signed) (request attempt : ℕ) where
  broadcast_accepted :
      (w : World)
      → s.chain.send_transaction x ≡ none
      → let w' = (broadcast s ref sig x request attempt w).1 in
        (w'.sent ≡ w.sent ++ record { by = ref; signed = x } ∷ []) × (w'.pool ≡ w.pool)
  unfolding broadcast
  broadcast_accepted w e = ground arith

  broadcast_refused :
      (w : World) {e : Error}
      → KeepsReplies s.chain
      → s.chain.send_transaction x ≡ some e
      → let w' = (broadcast s ref sig x request attempt w).1 in
        (w'.sent ≡ w.sent) × (w'.pool ≡ store w.pool ref (rewind_nonce sig))
  unfolding broadcast
  broadcast_refused w {e} keeps h = ground (arith, keeps x e h)

module _ (ref : SignerRef) (sig : Signer) (w : World) (held : deref w.pool ref ≡ some sig)
    (room : sig.nonce + 1 < 2 ^ 64) where
  used : (use_nonce sig).1 ≡ record sig { nonce = sig.nonce + 1 }
  unfolding use_nonce
  used = ground arith

  sent_one-Effect :
      (w' : World) (x : Signed)
      → x.tx.nonce ≡ (use_nonce sig).0
      → w'.sent ≡ w.sent ++ record { by = ref; signed = x } ∷ []
      → w'.pool ≡ store w.pool ref (use_nonce sig).1
      → Effect ref sig w w'
  sent_one-Effect w' x n e p =
      sent_one x (n ∙ (use-rewind sig (omega arith)).0) e
        (ap (λ q. deref q ref) p ∙ deref-store_self w.pool ref _ held ∙ ap some used)
        λ r ne. ap (λ q. deref q r) p ∙ deref-store_ne w.pool ref r _ ne

  unsent-Effect :
      (w' : World)
      → w'.sent ≡ w.sent
      → w'.pool ≡ store (store w.pool ref (use_nonce sig).1) ref (rewind_nonce (use_nonce sig).1)
      → Effect ref sig w w'
  unsent-Effect w' e p =
      let after = store w.pool ref (use_nonce sig).1 in
      let there = deref-store_self w.pool ref (use_nonce sig).1 held in
      unsent e
        (ap (λ q. deref q ref) p
          ∙ deref-store_self after ref _ there
          ∙ ap some (use-rewind sig (omega arith)).2)
        λ r ne.
          ap (λ q. deref q r) p ∙ deref-store_ne after ref r _ ne ∙ deref-store_ne w.pool ref r _ ne

  module _ (s : Service) (i : SubmitInput) (gas price request : ℕ) (signs : SignsIts s.sign_tx)
      (keeps : KeepsReplies s.chain) where
    abbrev nonce : ℕ
    nonce = (use_nonce sig).0

    abbrev sig' : Signer
    sig' = (use_nonce sig).1

    abbrev reserved : World
    reserved = write_signer ref sig' w

    abbrev signing : Result Signed
    signing = s.sign_tx s.chain.chain_id (transaction_for i nonce gas price) sig.key

    record_attempt-Effect :
        (x : Signed)
        → signing ≡ ok x
        → Effect ref sig w (record_attempt s ref sig' x nonce price request reserved).1
    unfolding record_attempt
    record_attempt-Effect x e =
        let row = insert_attempt s.pg request sig'.address nonce x.hash price w.db in
        let w₁ = record reserved { db = row.1 } in
        let stamped = ap (λ tx. tx.nonce) (signs _ _ _ x e) in
        elim (Result-cases row.0) [
          | inl (e', failed) ↦ unsent-Effect _ (ground arith) (ground arith)
          | inr (attempt, done) ↦ elim (Option-cases (s.chain.send_transaction x)) [
            | inl accepted ↦
                let sending = broadcast_accepted s ref sig' x request attempt w₁ accepted in
                sent_one-Effect _ x stamped (ground (arith, sending)) (ground (arith, sending))
            | inr (e', refused) ↦
                let sending = broadcast_refused s ref sig' x request attempt w₁ keeps refused in
                unsent-Effect _ (ground (arith, sending)) (ground (arith, sending))
          ]
        ]

    sign_and_send-Effect : Effect ref sig w (sign_and_send s i ref sig gas price request w).1
    unfolding sign_and_send
    sign_and_send-Effect = elim (Result-cases signing) [
      | inl (e, failed) ↦ unsent-Effect _ (ground arith) (ground arith)
      | inr (x, signed) ↦ rw (signed, sign_and_send) (record_attempt-Effect x signed)
    ]

  same-Effect : (w' : World) → w'.sent ≡ w.sent → w'.pool ≡ w.pool → Effect ref sig w w'
  same-Effect w' e p = unsent e (ap (λ q. deref q ref) p ∙ held) λ r ne. ap (λ q. deref q r) p

  pub relay_with-Effect :
      (s : Service) (i : SubmitInput) (request : ℕ)
      → SignsIts s.sign_tx
      → KeepsReplies s.chain
      → Effect ref sig w (relay_with s i ref sig request w).1
  unfolding relay_with
  relay_with-Effect s i request signs keeps = elim (Result-cases (gas_limit_for s sig i)) [
    | inl (e, failed) ↦ same-Effect _ (ground arith) (ground arith)
    | inr (gas, limited) ↦ elim (Result-cases s.chain.suggest_gas_price) [
      | inl (e, failed) ↦ same-Effect _ (ground arith) (ground arith)
      | inr (price, priced) ↦
          let reached : (sign_and_send s i ref sig gas price request w).1
              ≡ (relay_with s i ref sig request w).1 =
            ground arith in
          subst (Effect ref sig w) reached (sign_and_send-Effect s i gas price request signs keeps)
    ]
  ]
