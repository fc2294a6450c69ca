-- ===== src/Relay/Receipts.antt =====
-- internal/relay/watcher.go: what recording a receipt does, and when a tick gets nowhere.
use txmill.Base.{
  ℕ, zero, suc, ◌≡◌, ◌⊎◌, inl, inr, refl, List, [], ◌∷◌, Option, none, some, Bytes, ok, err, Error,
  arith, All, length, Option-cases, Result-cases, update_where, ◌==◌, if◌then◌else◌, int64, ◌%◌,
  ◌^◌,
}
use txmill.Store.{RequestStatus, AttemptStatus, Db, Postgres, Statement, nullif_empty}
use txmill.Relay.Enqueuer.{Enqueuer}
use txmill.Relay.Service.{Service, fire_webhook, mark_submitted}
use txmill.Relay.Marks.{status_in, status_in-set, fire-requests}
use txmill.Relay.Watcher.{
  Receipt, ReceiptAnswer, found, not_found, failed, PendingAttempt, Watcher, fetch_revert_reason,
  request_outcome, store_receipt, process, process_all, open_batch, tick,
}

pub fire-attempts :
    (w : Option Enqueuer) (id : ℕ) (d : Db) → (fire_webhook w id d).attempts ≡ d.attempts
unfolding fire_webhook
fire-attempts none id d = refl
fire-attempts (some w) id d = w.keeps_attempts id d

-- The rows after a recorded receipt, written out: 0 is a failed execution, a missing gas price is 0,
-- and an empty reason is NULL.
abbrev pub both_set : Watcher → PendingAttempt → Receipt → Bytes → Db → Db
both_set w p r logs d = record d {
  attempts =
      update_where (λ a. a.id == p.attempt_id)
        (λ a. record a {
          status = if r.status == 0 then AttemptStatus.reverted else AttemptStatus.confirmed;
          block_number = some (int64 (r.block_number % 2 ^ 64));
          gas_used = some (int64 r.gas_used);
          effective_gas_price = some (elim r.effective_gas_price [ none ↦ 0 | some price ↦ price ]);
          logs = some logs;
          revert_reason =
              if r.status == 0 then nullif_empty (fetch_revert_reason w p r.block_number) else none;
        })
        d.attempts;
  requests =
      update_where (λ x. x.id == p.request_id)
        (λ x. record x {
          status = if r.status == 0 then RequestStatus.reverted else RequestStatus.confirmed;
          updated_at = w.pg.now;
        })
        d.requests;
}

store_receipt_cases :
    (w : Watcher) (p : PendingAttempt) (r : Receipt) (logs : Bytes) (d : Db)
    → ((e : Error) × (store_receipt w p r logs d ≡ (err e, d)))
      ⊎ (store_receipt w p r logs d ≡ (ok tt, both_set w p r logs d))
unfolding store_receipt
store_receipt_cases w p r logs d = elim (Option-cases (w.pg.failure Statement.begin)) [
  | inr (e, f) ↦ inl (e, ground arith)
  | inl f ↦ elim (Option-cases (w.pg.failure Statement.update_attempt)) [
    | inr (e, g) ↦ inl (e, ground arith)
    | inl g ↦ elim (Option-cases (w.pg.failure Statement.update_request)) [
      | inr (e, h) ↦ inl (e, ground arith)
      | inl h ↦ elim (Option-cases (w.pg.failure Statement.commit)) [
        | inr (e, k) ↦ inl (e, ground arith)
        | inl k ↦ inr (ground arith)
      ]
    ]
  ]
]

-- A receipt is recorded as a whole or not at all: the processing of an attempt leaves the database
-- as it was, or else the node has a receipt, and the attempt has its outcome, block, gas, price,
-- logs and reason, the request has the same outcome, no other row of the two tables changes,
-- and the call succeeds whatever becomes of the webhook.
pub process_atomic :
    (w : Watcher) (p : PendingAttempt) (d : Db)
    → ((process w p d).1 ≡ d)
      ⊎ ((r : Receipt) × (logs : Bytes) × (w.transaction_receipt p.tx_hash ≡ found r)
          × (w.marshal_logs r.logs ≡ ok logs)
          × ((process w p d).0 ≡ ok tt)
          × ((process w p d).1.attempts ≡ (both_set w p r logs d).attempts)
          × ((process w p d).1.requests ≡ (both_set w p r logs d).requests))
unfolding process
process_atomic w p d = by_answer (w.transaction_receipt p.tx_hash) refl
  where
    Goal : Type 0
    Goal =
        ((process w p d).1 ≡ d)
        ⊎ ((r : Receipt) × (logs : Bytes) × (w.transaction_receipt p.tx_hash ≡ found r)
            × (w.marshal_logs r.logs ≡ ok logs)
            × ((process w p d).0 ≡ ok tt)
            × ((process w p d).1.attempts ≡ (both_set w p r logs d).attempts)
            × ((process w p d).1.requests ≡ (both_set w p r logs d).requests))

    by_answer : (x : ReceiptAnswer) → w.transaction_receipt p.tx_hash ≡ x → Goal
    by_answer not_found e = inl (ground arith)
    by_answer (failed x) e = inl (ground arith)
    by_answer (found r) e = elim (Result-cases (w.marshal_logs r.logs)) [
      | inl (x, k) ↦ inl (ground arith)
      | inr (logs, k) ↦ elim (store_receipt_cases w p r logs d) [
        | inl (x, s) ↦ inl (ground (arith, s))
        | inr s ↦
            let after = both_set w p r logs d in
            inr (
              r,
              logs,
              e,
              k,
              ground (arith, s),
              ground (arith, s, fire-attempts w.webhooks p.request_id after),
              ground (arith, s, fire-requests w.webhooks p.request_id after),
            )
      ]
    ]

process_all_stalled :
    (at : ℕ → Watcher) (ps : List PendingAttempt) (d : Db)
    → All (λ p. (at p.attempt_id).transaction_receipt p.tx_hash ≡ not_found) ps
    → process_all at ps d ≡ (length ps, d)
unfolding process_all process
process_all_stalled at [] d h = refl
process_all_stalled at (p ∷ ps) d h = ground (arith, h.0, process_all_stalled at ps d h.1)

-- `n` ticks in a row.
pub ticks : ℕ → Postgres → ℕ → (ℕ → Watcher) → Db → Db
ticks zero pg size at d = d
ticks (suc n) pg size at d = ticks n pg size at (tick pg size at d).1

-- While the node has no receipt for any attempt of the batch that the database now gives, any number
-- of ticks leaves the database as it is, so that each reads the same batch again, and a tick reports
-- the whole batch as processed. The read of the batch is assumed not to fail.
pub ticks_stalled :
    (n : ℕ) (pg : Postgres) (size : ℕ) (at : ℕ → Watcher) (d : Db)
    → pg.failure Statement.select_attempts ≡ none
    → All (λ p. (at p.attempt_id).transaction_receipt p.tx_hash ≡ not_found) (open_batch size d)
    → (ticks n pg size at d ≡ d) × (tick pg size at d ≡ (ok (length (open_batch size d)), d))
unfolding ticks tick
ticks_stalled zero pg size at d works h =
    (refl, ground (arith, process_all_stalled at (open_batch size d) d h))
ticks_stalled (suc n) pg size at d works h =
    let stalled = process_all_stalled at (open_batch size d) d h in
    (ground (arith, stalled, (ticks_stalled n pg size at d works h).0), ground (arith, stalled))

store_receipt_works :
    (w : Watcher) (p : PendingAttempt) (r : Receipt) (logs : Bytes) (d : Db)
    → ((st : Statement) → w.pg.failure st ≡ none)
    → store_receipt w p r logs d ≡ (ok tt, both_set w p r logs d)
unfolding store_receipt
store_receipt_works w p r logs d works = ground (
  arith,
  works Statement.begin,
  works Statement.update_attempt,
  works Statement.update_request,
  works Statement.commit,
)

mark_submitted_any :
    (s : Service) (id attempt : ℕ) (d : Db) {old : RequestStatus}
    → ((st : Statement) → s.pg.failure st ≡ none)
    → status_in id d.requests ≡ some old
    → status_in id (mark_submitted s id attempt d).1.requests ≡ some RequestStatus.submitted
unfolding mark_submitted
mark_submitted_any s id attempt d {old} works there = ground (
  arith,
  works Statement.begin,
  works Statement.update_attempt,
  works Statement.update_request,
  works Statement.commit,
  status_in-set s.pg id RequestStatus.submitted {old = old} d.requests there,
)

-- Where the watcher records a receipt for a stored request, the request has the receipt's outcome, and
-- a `markSubmitted` that comes after it takes the request back to `submitted`. The database is
-- assumed not to fail.
pub late_mark_regresses :
    (s : Service) (w : Watcher) (p : PendingAttempt) (r : Receipt) (logs : Bytes) (attempt : ℕ)
    (d : Db) (old : RequestStatus)
    → ((st : Statement) → w.pg.failure st ≡ none)
    → ((st : Statement) → s.pg.failure st ≡ none)
    → w.transaction_receipt p.tx_hash ≡ found r
    → w.marshal_logs r.logs ≡ ok logs
    → status_in p.request_id d.requests ≡ some old
    → let d' = (process w p d).1 in
      (status_in p.request_id d'.requests ≡ some (request_outcome r))
      × (status_in p.request_id (mark_submitted s p.request_id attempt d').1.requests
          ≡ some RequestStatus.submitted)
unfolding process
late_mark_regresses s w p r logs attempt d old works works' e k there =
    let after = both_set w p r logs d in
    let outcome : status_in p.request_id (process w p d).1.requests ≡ some (request_outcome r) =
      ground (
        arith,
        store_receipt_works w p r logs d works,
        fire-requests w.webhooks p.request_id after,
        status_in-set w.pg p.request_id (request_outcome r) {old = old} d.requests there,
      ) in
    (outcome, mark_submitted_any s p.request_id attempt (process w p d).1 works' outcome)
