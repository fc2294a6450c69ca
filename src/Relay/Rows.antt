-- ===== src/Relay/Rows.antt =====
-- internal/relay/service.go: what `Submit` writes to `relay_requests`: nothing but the status and the
-- time of its own row.
use txmill.Base.{
  ℕ, ◌≡◌, refl, ap, List, [], ◌∷◌, arith, inl, inr, Option-cases, Result-cases, update_where, map,
  ◌==◌, if◌then◌else◌,
}
use txmill.Store.{Db, Request, RequestStatus, AttemptStatus}
use txmill.Signer.{Signer, use_nonce}
use txmill.Signer.Pool.{SignerRef}
use txmill.Relay.Chain.{Signed}
use txmill.Relay.Marks.{fire-requests}
use txmill.Relay.Service.{
  Service, SubmitInput, World, insert_attempt, mark_request_status, mark_attempt_status,
  mark_submitted, set_request_status, relay_with, sign_and_send, record_attempt, broadcast,
  gas_limit_for, transaction_for, write_signer,
}

-- A row without what a mark of the request `id` may change.
abbrev pub masked : ℕ → Request → Request
masked id r = if r.id == id then record r { status = RequestStatus.pending; updated_at = 0 } else r

-- The rows of two databases are the same but for the status and the time of the request `id`.
abbrev pub SameBut : ℕ → Db → Db → Type 0
SameBut id d' d = map (masked id) d'.requests ≡ map (masked id) d.requests

masked-set :
    (id now : ℕ) (st : RequestStatus) (rs : List Request)
    → map
        (masked id)
        (update_where (λ r. r.id == id) (λ r. record r { status = st; updated_at = now }) rs)
      ≡ map (masked id) rs
masked-set id now st [] = refl
masked-set id now st (r ∷ rs) = ground (arith, masked-set id now st rs)

same-rows : (id : ℕ) (d' d : Db) → d'.requests ≡ d.requests → SameBut id d' d
same-rows id d' d e = ap (map (masked id)) e

module _ (s : Service) (id : ℕ) where
  pub mark-SameBut : (st : RequestStatus) (d : Db) → SameBut id (mark_request_status s id st d).1 d
  unfolding mark_request_status
  mark-SameBut st d =
      let marked = set_request_status s.pg id st d in
      grind (arith, fire-requests s.webhooks id marked, masked-set id s.pg.now st d.requests)

  mark_submitted-SameBut : (attempt : ℕ) (d : Db) → SameBut id (mark_submitted s id attempt d).1 d
  unfolding mark_submitted
  mark_submitted-SameBut attempt d =
      ground (arith, masked-set id s.pg.now RequestStatus.submitted d.requests)

  mark_attempt-SameBut :
      (attempt : ℕ) (st : AttemptStatus) (d : Db)
      → SameBut id (mark_attempt_status s attempt st d).1 d
  unfolding mark_attempt_status
  mark_attempt-SameBut attempt st d = ground arith

  insert_attempt-SameBut :
      (request address nonce hash price : ℕ) (d : Db)
      → SameBut id (insert_attempt s.pg request address nonce hash price d).1 d
  unfolding insert_attempt
  insert_attempt-SameBut request address nonce hash price d = ground arith

  module _ (ref : SignerRef) where
    broadcast-SameBut :
        (sig : Signer) (x : Signed) (attempt : ℕ) (w : World)
        → SameBut id (broadcast s ref sig x id attempt w).1.db w.db
    unfolding broadcast
    broadcast-SameBut sig x attempt w = elim (Option-cases (s.chain.send_transaction x)) [
      | inr (e, refused) ↦ ground (arith, mark_attempt-SameBut attempt AttemptStatus.failed w.db)
      | inl accepted ↦
          let marked = mark_submitted s id attempt w.db in
          elim (Result-cases marked.0) [
            | inl (e, failed) ↦ ground (arith, mark_submitted-SameBut attempt w.db)
            | inr (u, done) ↦
                ground
                  (arith, mark_submitted-SameBut attempt w.db, fire-requests s.webhooks id marked.1)
          ]
    ]

    record_attempt-SameBut :
        (sig : Signer) (x : Signed) (nonce price : ℕ) (w : World)
        → SameBut id (record_attempt s ref sig x nonce price id w).1.db w.db
    unfolding record_attempt
    record_attempt-SameBut sig x nonce price w =
        let row = insert_attempt s.pg id sig.address nonce x.hash price w.db in
        let kept = insert_attempt-SameBut id sig.address nonce x.hash price w.db in
        elim (Result-cases row.0) [
          | inl (e, failed) ↦ ground (arith, kept)
          | inr (attempt, stored) ↦
              ground (arith, kept, broadcast-SameBut sig x attempt (record w { db = row.1 }))
        ]

    sign_and_send-SameBut :
        (i : SubmitInput) (sig : Signer) (gas price : ℕ) (w : World)
        → SameBut id (sign_and_send s i ref sig gas price id w).1.db w.db
    unfolding sign_and_send
    sign_and_send-SameBut i sig gas price w =
        let sig' = (use_nonce sig).1 in
        let nonce = (use_nonce sig).0 in
        elim (Result-cases
          (s.sign_tx s.chain.chain_id (transaction_for i nonce gas price) sig.key)) [
            | inl (e, failed) ↦ ground arith
            | inr (x, signed) ↦
                ground (arith, record_attempt-SameBut sig' x nonce price (write_signer ref sig' w))
          ]

    pub relay_with-SameBut :
        (i : SubmitInput) (sig : Signer) (w : World)
        → SameBut id (relay_with s i ref sig id w).1.db w.db
    unfolding relay_with
    relay_with-SameBut i sig w = elim (Result-cases (gas_limit_for s sig i)) [
      | inl (e, failed) ↦ ground (arith, mark-SameBut RequestStatus.rejected w.db)
      | inr (gas, limited) ↦ elim (Result-cases s.chain.suggest_gas_price) [
        | inl (e, failed) ↦ ground (arith, mark-SameBut RequestStatus.rejected w.db)
        | inr (price, priced) ↦ ground (arith, sign_and_send-SameBut i sig gas price w)
      ]
    ]
