-- ===== src/Relay/Marks.antt =====
-- internal/relay/service.go: the status of a request under each part of `Submit`, by the part's result.
use text.Mathlib.Text.{◌==◌ as str_eq}
use txmill.Base.{
  ℕ, ◌≡◌, ◌⊎◌, refl, ap, ◌∙◌, ◌||◌, List, [], ◌∷◌, ◌++◌, Option, none, some, Result, ok, err, Error,
  wrap, arith, inl, inr, Option-cases, Result-cases, update_where, ◌==◌, ==_refl, if◌then◌else◌,
}
use txmill.Store.{
  Db, Request, RequestStatus, AttemptStatus, Statement, Postgres,
  update_request as update_request_stmt,
}
use txmill.Signer.{Signer, use_nonce}
use txmill.Signer.Pool.{SignerRef}
use txmill.Relay.Chain.{Signed}
use txmill.Relay.Enqueuer.{Enqueuer}
use txmill.Relay.Service.{
  Service, SubmitInput, SubmitResult, World, insert_attempt, mark_request_status,
  mark_attempt_status, mark_submitted, fire_webhook, set_request_status, relay_with, sign_and_send,
  record_attempt, broadcast, gas_limit_for, transaction_for, write_signer,
}

-- The status of the first row with an id.
abbrev pub status_in : ℕ → List Request → Option RequestStatus
status_in id [] = none
status_in id (r ∷ rest) = if r.id == id then some r.status else status_in id rest

-- The documented status of a request whose `Submit` failed, by the label of the error.
abbrev pub status_after_error : Error → RequestStatus
status_after_error (wrap text cause) =
    if str_eq text "load signer pool"
      || str_eq text "checkout"
      || str_eq text "estimate gas"
      || str_eq text "suggest gas price"
    then RequestStatus.rejected
    else RequestStatus.pending
status_after_error _ = RequestStatus.pending

abbrev pub status_after : Result SubmitResult → RequestStatus
status_after (ok _) = RequestStatus.submitted
status_after (err e) = status_after_error e

pub status_in-append :
    (r : Request) (rs : List Request)
    → status_in r.id rs ≡ none
    → status_in r.id (rs ++ r ∷ []) ≡ some r.status
status_in-append r [] h = ground (arith, ==_refl r.id)
status_in-append r (x ∷ rs) h = ground (arith, status_in-append r rs)

pub status_in-set :
    (pg : Postgres) (id : ℕ) (st : RequestStatus) {old : RequestStatus} (rs : List Request)
    → status_in id rs ≡ some old
    → status_in id
        (update_where (λ r. r.id == id) (λ r. record r { status = st; updated_at = pg.now }) rs)
      ≡ some st
status_in-set pg id st [] h = cc
status_in-set pg id st {old} (x ∷ rs) h = ground (arith, status_in-set pg id st {old = old} rs)

pub fire-requests :
    (w : Option Enqueuer) (id : ℕ) (d : Db) → (fire_webhook w id d).requests ≡ d.requests
unfolding fire_webhook
fire-requests none id d = refl
fire-requests (some w) id d = w.keeps_requests id d

module _ (s : Service) (id : ℕ) (works : s.pg.failure update_request_stmt ≡ none) where
  -- A request that is there is marked, whatever the webhooks do.
  pub mark-status :
      (st : RequestStatus) {old : RequestStatus} (d : Db)
      → status_in id d.requests ≡ some old
      → status_in id (mark_request_status s id st d).1.requests ≡ some st
  unfolding mark_request_status
  mark-status st d h =
      let marked = set_request_status s.pg id st d in
      grind (arith, fire-requests s.webhooks id marked, status_in-set s.pg id st d.requests h)

  mark_submitted-status :
      (attempt : ℕ) (d : Db)
      → status_in id d.requests ≡ some RequestStatus.pending
      → let (r, d') = mark_submitted s id attempt d in
        ((r ≡ ok tt) × (status_in id d'.requests ≡ some RequestStatus.submitted))
        ⊎ ((e : Error) × (r ≡ err e) × (d'.requests ≡ d.requests))
  unfolding mark_submitted
  mark_submitted-status attempt d h = elim (Option-cases (s.pg.failure Statement.begin)) [
    | inr (e, f) ↦ inr (e, ground arith, ground arith)
    | inl f ↦ elim (Option-cases (s.pg.failure Statement.update_attempt)) [
      | inr (e, g) ↦ inr (e, ground arith, ground arith)
      | inl g ↦ elim (Option-cases (s.pg.failure Statement.commit)) [
        | inr (e, k) ↦ inr (e, ground arith, ground arith)
        | inl k ↦
            let set = status_in-set s.pg id RequestStatus.submitted d.requests h in
            inl (ground arith, ground (arith, set))
      ]
    ]
  ]

  mark_attempt-requests :
      (attempt : ℕ) (st : AttemptStatus) (d : Db)
      → (mark_attempt_status s attempt st d).1.requests ≡ d.requests
  unfolding mark_attempt_status
  mark_attempt-requests attempt st d = ground arith

  module _ (ref : SignerRef) where
    broadcast-status :
        (sig : Signer) (x : Signed) (attempt : ℕ) (w : World)
        → status_in id w.db.requests ≡ some RequestStatus.pending
        → let (r, w') = broadcast s ref sig x id attempt w in
          status_in id w'.db.requests ≡ some (status_after r)
    unfolding broadcast
    broadcast-status sig x attempt w h = elim (Option-cases (s.chain.send_transaction x)) [
      | inr (e, refused) ↦ ground (arith, mark_attempt-requests attempt AttemptStatus.failed w.db)
      | inl accepted ↦ elim (mark_submitted-status attempt w.db h) [
        | inr (e, failed, same) ↦ ground arith
        | inl (done, set) ↦
            ground (arith, fire-requests s.webhooks id (mark_submitted s id attempt w.db).1)
      ]
    ]

    insert_attempt-requests :
        (request address nonce hash price : ℕ) (d : Db)
        → (insert_attempt s.pg request address nonce hash price d).1.requests ≡ d.requests
    unfolding insert_attempt
    insert_attempt-requests request address nonce hash price d = ground arith

    record_attempt-status :
        (sig : Signer) (x : Signed) (nonce price : ℕ) (w : World)
        → status_in id w.db.requests ≡ some RequestStatus.pending
        → let (r, w') = record_attempt s ref sig x nonce price id w in
          status_in id w'.db.requests ≡ some (status_after r)
    unfolding record_attempt
    record_attempt-status sig x nonce price w h =
        let row = insert_attempt s.pg id sig.address nonce x.hash price w.db in
        let kept = insert_attempt-requests id sig.address nonce x.hash price w.db in
        elim (Result-cases row.0) [
          | inl (e, failed) ↦ ground (arith, kept)
          | inr (attempt, inserted) ↦
              let w₁ = record w { db = row.1 } in
              ground (arith, broadcast-status sig x attempt w₁ (ap (status_in id) kept ∙ h))
        ]

    sign_and_send-status :
        (i : SubmitInput) (sig : Signer) (gas price : ℕ) (w : World)
        → status_in id w.db.requests ≡ some RequestStatus.pending
        → let (r, w') = sign_and_send s i ref sig gas price id w in
          status_in id w'.db.requests ≡ some (status_after r)
    unfolding sign_and_send
    sign_and_send-status i sig gas price w h =
        let sig' = (use_nonce sig).1 in
        let nonce = (use_nonce sig).0 in
        elim (Result-cases
          (s.sign_tx s.chain.chain_id (transaction_for i nonce gas price) sig.key)) [
            | inl (e, failed) ↦ ground arith
            | inr (x, signed) ↦
                ground (arith, record_attempt-status sig' x nonce price (write_signer ref sig' w) h)
          ]

    pub relay_with-status :
        (i : SubmitInput) (sig : Signer) (w : World)
        → status_in id w.db.requests ≡ some RequestStatus.pending
        → let (r, w') = relay_with s i ref sig id w in
          status_in id w'.db.requests ≡ some (status_after r)
    unfolding relay_with
    relay_with-status i sig w h = elim (Result-cases (gas_limit_for s sig i)) [
      | inl (e, failed) ↦ ground (arith, mark-status RequestStatus.rejected w.db h)
      | inr (gas, limited) ↦ elim (Result-cases s.chain.suggest_gas_price) [
        | inl (e, failed) ↦ ground (arith, mark-status RequestStatus.rejected w.db h)
        | inr (price, priced) ↦ ground (arith, sign_and_send-status i sig gas price w h)
      ]
    ]
