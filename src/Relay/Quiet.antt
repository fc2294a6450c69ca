-- ===== src/Relay/Quiet.antt =====
-- internal/relay/service.go: a call of `Submit` opens no attempt of another request.
use txmill.Base.{
  ℕ, ◌≡◌, ◌≢◌, sym, subst, List, [], ◌∷◌, ◌++◌, ok, arith, inl, inr, Option-cases, Result-cases,
  Bool-cases, ◌⊎◌, All, All-update_where, ◌==◌, false,
}
use txmill.Store.{
  Db, Attempt, RequestStatus, AttemptStatus, Statement, insert_attempt as insert_attempt_stmt,
}
use txmill.Signer.{Signer, use_nonce}
use txmill.Signer.Pool.{SignerRef}
use txmill.Relay.Chain.{Signed}
use txmill.Relay.Service.{
  Service, SubmitInput, World, insert_attempt, new_attempt, has_hash, mark_request_status,
  mark_attempt_status, mark_submitted, set_request_status, set_attempt_status, relay_with,
  sign_and_send, record_attempt, broadcast, gas_limit_for, transaction_for, write_signer,
}
use txmill.Relay.Watcher.{is_open}
use txmill.Relay.Receipts.{fire-attempts}

-- An attempt of the request `q` is not open, and has not the id `n`.
abbrev pub IsQuiet : ℕ → ℕ → Attempt → Type 0
IsQuiet q n a = a.request_id ≡ q → (is_open a ≡ false) × (a.id ≢ n)

abbrev pub Quiet : ℕ → ℕ → Db → Type 0
Quiet q n d = All (IsQuiet q n) d.attempts

pub All-append :
    (P : Attempt → Type 0) (xs : List Attempt) (y : Attempt) → All P xs → P y → All P (xs ++ y ∷ [])
All-append P [] y h k = (k, tt)
All-append P (x ∷ xs) y h k = (h.0, All-append P xs y h.1 k)

pub same-Quiet : (q n : ℕ) (d d' : Db) → d'.attempts ≡ d.attempts → Quiet q n d → Quiet q n d'
same-Quiet q n d d' e h = subst (All (IsQuiet q n)) (sym e) h

set_attempt_status-Quiet :
    (q n : ℕ) (st : AttemptStatus) (d : Db) → Quiet q n d → Quiet q n (set_attempt_status n st d)
set_attempt_status-Quiet q n st d h =
    All-update_where (IsQuiet q n) (IsQuiet q n) (λ a. a.id == n) (λ a. record a { status = st })
      d.attempts (λ a k e own. absurd ((k own).1 (ground (arith, e)))) (λ a k e. k) h

module _ (s : Service) (q id : ℕ) (other : id ≢ q) where
  abbrev n : ℕ
  n = s.pg.new_id insert_attempt_stmt

  pub mark-Quiet :
      (st : RequestStatus) (d : Db) → Quiet q n d → Quiet q n (mark_request_status s id st d).1
  unfolding mark_request_status
  mark-Quiet st d =
      same-Quiet q n d (mark_request_status s id st d).1
        (ground (arith, fire-attempts s.webhooks id (set_request_status s.pg id st d)))

  mark_attempt-Quiet :
      (st : AttemptStatus) (d : Db) → Quiet q n d → Quiet q n (mark_attempt_status s n st d).1
  unfolding mark_attempt_status
  mark_attempt-Quiet st d h =
      let d' = (mark_attempt_status s n st d).1 in
      elim (Option-cases (s.pg.failure Statement.update_attempt)) [
        | inr (e, fails) ↦ same-Quiet q n d d' (ground arith) h
        | inl works ↦
            same-Quiet q n (set_attempt_status n st d) d' (ground arith)
              (set_attempt_status-Quiet q n st d h)
      ]

  mark_submitted_attempts :
      (d : Db)
      → ((mark_submitted s id n d).1.attempts ≡ d.attempts)
        ⊎ ((mark_submitted s id n d).1.attempts
            ≡ (set_attempt_status n AttemptStatus.submitted d).attempts)
  unfolding mark_submitted
  mark_submitted_attempts d = elim (Option-cases (s.pg.failure Statement.begin)) [
    | inr (e, f) ↦ inl (ground arith)
    | inl f ↦ elim (Option-cases (s.pg.failure Statement.update_attempt)) [
      | inr (e, g) ↦ inl (ground arith)
      | inl g ↦ elim (Option-cases (s.pg.failure Statement.update_request)) [
        | inr (e, h) ↦ inl (ground arith)
        | inl h ↦ elim (Option-cases (s.pg.failure Statement.commit)) [
          | inr (e, k) ↦ inl (ground arith)
          | inl k ↦ inr (ground arith)
        ]
      ]
    ]
  ]

  mark_submitted-Quiet : (d : Db) → Quiet q n d → Quiet q n (mark_submitted s id n d).1
  mark_submitted-Quiet d h = elim (mark_submitted_attempts d) [
    | inl same ↦ same-Quiet q n d (mark_submitted s id n d).1 same h
    | inr set ↦
        same-Quiet q n (set_attempt_status n AttemptStatus.submitted d) (mark_submitted s id n d).1
          set (set_attempt_status-Quiet q n AttemptStatus.submitted d h)
  ]

  insert_attempt-Quiet :
      (address nonce hash price : ℕ) (d : Db)
      → Quiet q n d
      → Quiet q n (insert_attempt s.pg id address nonce hash price d).1
  unfolding insert_attempt
  insert_attempt-Quiet address nonce hash price d h =
      let row = new_attempt s.pg id address nonce hash price in
      let d' = (insert_attempt s.pg id address nonce hash price d).1 in
      let more = All-append (IsQuiet q n) d.attempts row h (λ own. absurd (other own)) in
      elim (Option-cases (s.pg.failure insert_attempt_stmt)) [
        | inr (e, fails) ↦ same-Quiet q n d d' (ground arith) h
        | inl works ↦ elim (Bool-cases (has_hash hash d.attempts)) [
          | inl taken ↦ same-Quiet q n d d' (ground arith) h
          | inr fresh ↦ subst (All (IsQuiet q n)) (ground arith) more
        ]
      ]

  insert_attempt_id :
      (address nonce hash price attempt : ℕ) (d : Db)
      → (insert_attempt s.pg id address nonce hash price d).0 ≡ ok attempt
      → attempt ≡ n
  unfolding insert_attempt
  insert_attempt_id address nonce hash price attempt d h = ground arith

  module _ (ref : SignerRef) where
    broadcast-Quiet :
        (sig : Signer) (x : Signed) (w : World)
        → Quiet q n w.db
        → Quiet q n (broadcast s ref sig x id n w).1.db
    unfolding broadcast
    broadcast-Quiet sig x w h =
        let d' = (broadcast s ref sig x id n w).1.db in
        let marked = mark_submitted s id n w.db in
        elim (Option-cases (s.chain.send_transaction x)) [
          | inr (e, refused) ↦
              same-Quiet q n (mark_attempt_status s n AttemptStatus.failed w.db).1 d' (ground arith)
                (mark_attempt-Quiet AttemptStatus.failed w.db h)
          | inl accepted ↦ elim (Result-cases marked.0) [
            | inl (e, failed) ↦
                same-Quiet q n marked.1 d' (ground arith) (mark_submitted-Quiet w.db h)
            | inr (u, done) ↦
                same-Quiet q n marked.1 d' (ground (arith, fire-attempts s.webhooks id marked.1))
                  (mark_submitted-Quiet w.db h)
          ]
        ]

    record_attempt-Quiet :
        (sig : Signer) (x : Signed) (nonce price : ℕ) (w : World)
        → Quiet q n w.db
        → Quiet q n (record_attempt s ref sig x nonce price id w).1.db
    unfolding record_attempt
    record_attempt-Quiet sig x nonce price w h =
        let row = insert_attempt s.pg id sig.address nonce x.hash price w.db in
        let d' = (record_attempt s ref sig x nonce price id w).1.db in
        let kept = insert_attempt-Quiet sig.address nonce x.hash price w.db h in
        elim (Result-cases row.0) [
          | inl (e, failed) ↦ same-Quiet q n row.1 d' (ground arith) kept
          | inr (attempt, stored) ↦
              let is = insert_attempt_id sig.address nonce x.hash price attempt w.db stored in
              let there = record w { db = row.1 } in
              same-Quiet q n (broadcast s ref sig x id n there).1.db d' (ground (arith, is))
                (broadcast-Quiet sig x there kept)
        ]

    sign_and_send-Quiet :
        (i : SubmitInput) (sig : Signer) (gas price : ℕ) (w : World)
        → Quiet q n w.db
        → Quiet q n (sign_and_send s i ref sig gas price id w).1.db
    unfolding sign_and_send
    sign_and_send-Quiet i sig gas price w h =
        let sig' = (use_nonce sig).1 in
        let nonce = (use_nonce sig).0 in
        let d' = (sign_and_send s i ref sig gas price id w).1.db in
        elim (Result-cases
          (s.sign_tx s.chain.chain_id (transaction_for i nonce gas price) sig.key)) [
            | inl (e, failed) ↦ same-Quiet q n w.db d' (ground arith) h
            | inr (x, signed) ↦
                let there = write_signer ref sig' w in
                same-Quiet q n (record_attempt s ref sig' x nonce price id there).1.db d'
                  (ground arith) (record_attempt-Quiet sig' x nonce price there h)
          ]

    pub relay_with-Quiet :
        (i : SubmitInput) (sig : Signer) (w : World)
        → Quiet q n w.db
        → Quiet q n (relay_with s i ref sig id w).1.db
    unfolding relay_with
    relay_with-Quiet i sig w h =
        let d' = (relay_with s i ref sig id w).1.db in
        let rejected = (mark_request_status s id RequestStatus.rejected w.db).1 in
        let kept = mark-Quiet RequestStatus.rejected w.db h in
        elim (Result-cases (gas_limit_for s sig i)) [
          | inl (e, failed) ↦ same-Quiet q n rejected d' (ground arith) kept
          | inr (gas, limited) ↦ elim (Result-cases s.chain.suggest_gas_price) [
            | inl (e, failed) ↦ same-Quiet q n rejected d' (ground arith) kept
            | inr (price, priced) ↦
                same-Quiet q n (sign_and_send s i ref sig gas price id w).1.db d' (ground arith)
                  (sign_and_send-Quiet i sig gas price w h)
          ]
        ]
