-- ===== src/Webhook/Retries.antt =====
-- internal/webhook/webhook.go: the life of a delivery under `deliver`.
use txmill.Base.{
  ℕ, zero, Option, suc, ◌+◌, ◌≤◌, ◌<◌, ◌≡◌, inl, inr, refl, ◌∙◌, true, none, some, Bytes, ok, Error,
  arith, get_elem?, update_where, ◌==◌, Bool-cases, ltb, not, ◌||◌, if◌then◌else◌,
}
use txmill.Store.{Delivery, DeliveryStatus, Db, Statement}
use txmill.Webhook.Worker.{
  PendingDelivery, Surroundings, Answer, failed, replied, backoff_schedule, handle, is_success,
  failure_text, record_failure, deliver,
}

-- The documented schedule: 5 s, 30 s, 5 min, 30 min after the first four attempts.
abbrev pub gap_after : ℕ → ℕ
gap_after attempt =
    if attempt == 0
    then 5000
    else if attempt == 1
    then 30000
    else if attempt == 2
    then 300000
    else 1800000

-- What the receiver's side came to.
abbrev pub answer_to : Surroundings → PendingDelivery → Answer
answer_to w d = elim (w.request_error d.url) [ some msg ↦ failed msg | none ↦ w.post d ]

-- The column `response_code`, where 0 says that there was no answer.
abbrev answered : ℕ → Option ℕ
answered code = if code == 0 then none else some code

-- The documented fate of a row after a failed attempt: dead after the fifth, else due again.
abbrev pub after_failure : Surroundings → PendingDelivery → ℕ → Bytes → Delivery → Delivery
after_failure w d code msg r =
    if d.attempt == 4
    then record r {
      status = DeliveryStatus.dead;
      response_code = answered code;
      last_error = some msg;
      attempt = 5;
    }
    else record r {
      response_code = answered code;
      last_error = some msg;
      attempt = d.attempt + 1;
      next_attempt_at = w.clock + gap_after d.attempt;
    }

abbrev after_success : ℕ → Delivery → Delivery
after_success code r = record r {
  status = DeliveryStatus.delivered;
  response_code = some code;
  last_error = none;
  attempt = r.attempt + 1;
}

abbrev pub after_answer : Surroundings → PendingDelivery → Answer → Delivery → Delivery
after_answer w d (failed msg) = after_failure w d 0 msg
after_answer w d (replied code body) =
    if ltb code 200 || ltb 299 code
    then after_failure w d code (failure_text code body)
    else after_success code

abbrev pub after_delivery : Surroundings → PendingDelivery → Delivery → Delivery
after_delivery w d = after_answer w d (answer_to w d)

backoff_gap : (a : ℕ) → a < 4 → get_elem? backoff_schedule a ≡ some (gap_after a)
backoff_gap zero h = refl
backoff_gap (suc zero) h = refl
backoff_gap (suc (suc zero)) h = refl
backoff_gap (suc (suc (suc zero))) h = refl
backoff_gap (suc (suc (suc (suc a)))) h = absurd (omega arith)

success_range : (code : ℕ) → (ltb code 200 || ltb 299 code) ≡ not (is_success code)
success_range code = ground arith

module _ (w : Surroundings) (d : PendingDelivery) (fifth : d.attempt ≤ 4) where
  abbrev pub updated : (Delivery → Delivery) → Db → Db
  updated f db = record db { deliveries = update_where (λ r. r.id == d.id) f db.deliveries }

  failure_lem :
      (code : ℕ) (msg : Bytes) (db : Db)
      → w.pg.failure Statement.update_delivery ≡ none
      → record_failure w d code msg db ≡ (ok tt, updated (after_failure w d code msg) db)
  unfolding record_failure
  failure_lem code msg db works = ground (arith, backoff_gap d.attempt)

  handle_lem :
      (x : Answer) (db : Db)
      → w.pg.failure Statement.update_delivery ≡ none
      → handle w d x db ≡ (ok tt, updated (after_answer w d x) db)
  handle_lem (failed msg) db works = failure_lem 0 msg db works
  handle_lem (replied code body) db works = elim (Bool-cases (is_success code)) [
    | inl success ↦ rw (success, success_range code, success) (ground arith)
    | inr failure ↦
        rw (failure, success_range code, failure)
          (failure_lem code (failure_text code body) db works)
  ]

  deliver-handle : (db : Db) → deliver w d db ≡ handle w d (answer_to w d) db
  unfolding deliver
  deliver-handle db = ground arith

  -- One delivery on every branch, for an attempt number that the database holds (0 to 4): an
  -- answer from 200 to 299 marks the row delivered; any other answer, or a request that cannot be made or sent,
  -- makes it due again 5 s, 30 s, 5 min or 30 min later by its attempt number, and dead at the
  -- fifth; no index into the schedule is out of range, and no other row or table changes. It is
  -- assumed that the database does not fail to update the row.
  pub deliver_lem :
      (db : Db)
      → w.pg.failure Statement.update_delivery ≡ none
      → deliver w d db ≡ (ok tt, updated (after_delivery w d) db)
  deliver_lem db works = deliver-handle db ∙ handle_lem (answer_to w d) db works

-- Where the update fails, nothing changes.
pub deliver_fails :
    (w : Surroundings) (d : PendingDelivery) (db : Db) {e : Error}
    → w.pg.failure Statement.update_delivery ≡ some e
    → (deliver w d db).1 ≡ db
unfolding deliver record_failure
deliver_fails w d db fails = ground arith

-- A row is attempted at most five times; it is pending only after fewer, and dead only after five.
pub record IsSound (r : Delivery) : Type 0 where
  pub bounded : r.attempt ≤ 5
  pub open_below : r.status ≡ DeliveryStatus.pending → r.attempt ≤ 4
  pub dead_at : r.status ≡ DeliveryStatus.dead → r.attempt ≡ 5

-- `d` was read from the rows as they are: each row with its id is pending at its attempt number.
abbrev pub Snapshot : PendingDelivery → Delivery → Type 0
Snapshot d r = (r.id == d.id) ≡ true → (r.status ≡ DeliveryStatus.pending) × (r.attempt ≡ d.attempt)

pub after_answer-IsSound :
    (w : Surroundings) (d : PendingDelivery) (x : Answer) (r : Delivery)
    → IsSound r
    → r.status ≡ DeliveryStatus.pending
    → r.attempt ≡ d.attempt
    → IsSound (after_answer w d x r)
after_answer-IsSound w d (failed msg) r s p a = ground (arith, s.open_below p)
after_answer-IsSound w d (replied code body) r s p a = ground (arith, s.open_below p)
