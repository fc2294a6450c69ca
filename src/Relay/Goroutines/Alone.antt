-- ===== src/Relay/Goroutines/Alone.antt =====
-- internal/relay/service.go: a goroutine that runs alone does what `Submit` does in one go.
use txmill.Base.{
  ℕ, ◌≡◌, refl, ap, ◌∙◌, inl, inr, none, some, err, Error, wrap, arith, lookup, Option-cases,
  Result-cases,
}
use txmill.Signer.{Signer, use_nonce}
use txmill.Signer.Pool.{SignerRef, fetch, install, load, checkout, deref}
use txmill.Signer.Cells.{deref-store_self}
use txmill.Relay.Service.{
  Service, SubmitInput, World, validate, insert_request, relay_with, sign_and_send, gas_limit_for,
  reject, write_signer, finish, hold, after_checkout, after_load, submit,
}
use txmill.Relay.Goroutines.{
  entering, loading, installing, waiting, lent, rejecting, priced, reserved, releasing, returned,
  advance,
}
use txmill.Relay.Goroutines.Endings.{
  alone, outcome, more, alone-returned, outcome-next, outcome-blocked, releasing_lem, sign_lem,
}

module _ (k : ℕ) (ref : SignerRef) (sig : Signer) (w : World) (l : deref w.pool ref ≡ some sig)
    (s : Service) (i : SubmitInput) (request : ℕ) where
  reject_lem :
      (e : Error)
      → outcome (alone (more 2 k) (rejecting s request (some ref) e) w)
        ≡ finish ref (err e, reject s request w)
  unfolding advance
  reject_lem e =
      outcome-next (more 1 k) _ _ (releasing ref (err e)) (reject s request w) refl
      ∙ releasing_lem k ref (err e) (reject s request w)

  priced_lem :
      (gas price : ℕ)
      → outcome (alone (more 7 k) (priced s i request ref gas price) w)
        ≡ finish ref (sign_and_send s i ref sig gas price request w)
  unfolding advance sign_and_send use_nonce
  priced_lem gas price =
      let sig' = (use_nonce sig).1 in
      let w₁ = write_signer ref sig' w in
      outcome-next (more 6 k) _ _ (reserved s i request ref gas price (use_nonce sig).0) w₁
        (ground arith)
      ∙ sign_lem k ref sig' w₁ (deref-store_self w.pool ref sig' l) s i request gas price
          (use_nonce sig).0

module _ (k : ℕ) (ref : SignerRef) (sig : Signer) (w : World) (l : deref w.pool ref ≡ some sig)
    (s : Service) (i : SubmitInput) (request : ℕ) where
  lent_lem :
      outcome (alone (more 8 k) (lent s i request ref) w)
      ≡ finish ref (relay_with s i ref sig request w)
  unfolding advance relay_with
  lent_lem = elim (Result-cases (gas_limit_for s sig i)) [
    | inl (e, failed) ↦
        outcome-next (more 7 k) _ _ (rejecting s request (some ref) (wrap "estimate gas" e)) w
          (ground arith)
        ∙ reject_lem (more 5 k) ref sig w l s i request (wrap "estimate gas" e)
        ∙ ap (finish ref) (ground arith)
    | inr (gas, limited) ↦ elim (Result-cases s.chain.suggest_gas_price) [
      | inl (e, failed) ↦
          outcome-next (more 7 k) _ _ (rejecting s request (some ref) (wrap "suggest gas price" e))
            w (ground arith)
          ∙ reject_lem (more 5 k) ref sig w l s i request (wrap "suggest gas price" e)
          ∙ ap (finish ref) (ground arith)
      | inr (price, known) ↦
          outcome-next (more 7 k) _ _ (priced s i request ref gas price) w (ground arith)
          ∙ priced_lem k ref sig w l s i request gas price
          ∙ ap (finish ref) (ground arith)
    ]
  ]

module _ (s : Service) (i : SubmitInput) (request : ℕ) where
  refusing_lem :
      (k : ℕ) (e : Error) (w : World)
      → outcome (alone (more 1 k) (rejecting s request none e) w)
        ≡ (some (err e), reject s request w)
  unfolding advance
  refusing_lem k e w =
      outcome-next k _ _ (returned (err e)) (reject s request w) refl
      ∙ ap outcome (alone-returned k (err e) (reject s request w))

  holding_lem :
      (k : ℕ) (ref : SignerRef) (w : World)
      → outcome (alone (more 8 k) (lent s i request ref) w)
        ≡ hold s i request ref (deref w.pool ref) w
  unfolding advance
  holding_lem k ref w = elim (Option-cases (deref w.pool ref)) [
    | inl lost ↦ outcome-blocked (more 8 k) _ w (ground arith) ∙ ground arith
    | inr (sig, l) ↦ lent_lem k ref sig w l s i request ∙ ground arith
  ]

  waiting_lem :
      (k : ℕ) (w : World)
      → outcome (alone (more 9 k) (waiting s i request) w)
        ≡ after_checkout s i request w (checkout w.pool i.app_id s.cancelled)
  unfolding advance
  waiting_lem k w = elim (Option-cases (checkout w.pool i.app_id s.cancelled)) [
    | inl blocked ↦ outcome-blocked (more 9 k) _ w (ground arith) ∙ ground arith
    | inr ((r, p), c) ↦
        let w₁ = record w { pool = p } in
        elim (Result-cases r) [
          | inl (e, failed) ↦
              outcome-next (more 8 k) _ _ (rejecting s request none (wrap "checkout" e)) w₁
                (ground arith)
              ∙ refusing_lem (more 7 k) (wrap "checkout" e) w₁
              ∙ ground arith
          | inr (ref, done) ↦
              outcome-next (more 8 k) _ _ (lent s i request ref) w₁ (ground arith)
              ∙ holding_lem k ref w₁
              ∙ ground arith
        ]
  ]

  loading_lem :
      (k : ℕ) (w : World)
      → outcome (alone (more 11 k) (loading s i request) w)
        ≡ after_load s i request w (load s.backends w.pool i.app_id)
  unfolding advance load
  loading_lem k w = elim (Option-cases (lookup i.app_id w.pool)) [
    | inr (apool, there) ↦
        outcome-next (more 10 k) _ _ (waiting s i request) w (ground arith)
        ∙ waiting_lem (more 1 k) w
        ∙ ground arith
    | inl absent ↦ elim (Result-cases (fetch s.backends i.app_id)) [
      | inl (e, failed) ↦
          let x = wrap "load signer pool" e in
          outcome-next (more 10 k) _ _ (rejecting s request none x) w (ground arith)
          ∙ refusing_lem (more 9 k) x w
          ∙ ground arith
      | inr (signers, fetched) ↦
          let w₁ = record w { pool = install w.pool i.app_id signers } in
          outcome-next (more 10 k) _ _ (installing s i request signers) w (ground arith)
          ∙ outcome-next (more 9 k) _ _ (waiting s i request) w₁ refl
          ∙ waiting_lem k w₁
          ∙ ground arith
    ]
  ]

-- Given 12 steps or more, a goroutine in `Submit` with nobody else at work comes to the result (or to the
-- wait, where the call as a whole still waits) and to the world of the call as a whole.
pub alone-submit :
    (k : ℕ) (s : Service) (i : SubmitInput) (w : World)
    → outcome (alone (more 12 k) (entering s i) w) ≡ submit s i w
unfolding advance submit
alone-submit k s i w = elim (Result-cases (validate s i)) [
  | inl (e, bad) ↦
      outcome-next (more 11 k) _ _ (returned (err e)) w (ground arith)
      ∙ ap outcome (alone-returned (more 11 k) (err e) w)
      ∙ ground arith
  | inr (u, valid) ↦
      let w₁ = record w { db = (insert_request s.pg i w.db).1 } in
      elim (Result-cases (insert_request s.pg i w.db).0) [
        | inl (e, failed) ↦
            let x = wrap "insert request" e in
            outcome-next (more 11 k) _ _ (returned (err x)) w₁ (ground arith)
            ∙ ap outcome (alone-returned (more 11 k) (err x) w₁)
            ∙ ground arith
        | inr (request, done) ↦
            outcome-next (more 11 k) _ _ (loading s i request) w₁ (ground arith)
            ∙ loading_lem s i request k w₁
            ∙ ground arith
      ]
]
