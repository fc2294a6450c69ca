-- ===== src/Webhook/Worker.antt =====
-- internal/webhook/webhook.go, `Worker`: deliveries that are due are posted, and retried with backoff.
use txmill.Base.{
  ℕ, ◌+◌, Bool, ◌&&◌, List, [], ◌∷◌, ◌++◌, Option, none, some, Bytes, bytes, ok, err, new, length,
  get_elem?, take, select, map, update_where, order_by, decimal, ltb, leb, ◌==◌, if◌then◌else◌,
}
use txmill.Store.{
  Delivery, DeliveryStatus, Db, Exec, Postgres, statement, update_delivery, select_deliveries,
}

-- `BackoffSchedule`, in milliseconds.
abbrev pub backoff_schedule : List ℕ
backoff_schedule = 5000 ∷ 30000 ∷ 300000 ∷ 1800000 ∷ []

-- `pendingDelivery`
pub record PendingDelivery : Type 0 where
  pub id : ℕ
  pub url : Bytes
  pub payload : Bytes
  pub signature : Bytes
  pub attempt : ℕ

-- What `http.Client.Do` returns: the text of an error, or a status code and a body.
pub data Answer : Type 0 where
  failed : Bytes → Answer
  replied : ℕ → Bytes → Answer

-- The surroundings of one delivery: the database, Go's clock in milliseconds, the error text of
-- `http.NewRequest` at a URL if it has one, and the receiver's answer.
pub record Surroundings : Type 0 where
  pub pg : Postgres
  pub clock : ℕ
  pub request_error : Bytes → Option Bytes
  pub post : PendingDelivery → Answer

-- `NULLIF(code, 0)`
abbrev nullif_zero : ℕ → Option ℕ
nullif_zero code = if code == 0 then none else some code

abbrev update_rows : Surroundings → ℕ → (Delivery → Delivery) → Exec Db Unit
update_rows w id f =
    statement w.pg update_delivery
      λ d. (ok tt, record d { deliveries = update_where (λ r. r.id == id) f d.deliveries })

abbrev pub mark_dead : ℕ → ℕ → Bytes → Delivery → Delivery
mark_dead code attempt msg r = record r {
  status = DeliveryStatus.dead;
  response_code = nullif_zero code;
  last_error = some msg;
  attempt = attempt;
}

abbrev pub mark_retry : ℕ → ℕ → Bytes → ℕ → Delivery → Delivery
mark_retry code attempt msg at r = record r {
  response_code = nullif_zero code;
  last_error = some msg;
  attempt = attempt;
  next_attempt_at = at;
}

abbrev pub mark_delivered : ℕ → Delivery → Delivery
mark_delivered code r = record r {
  status = DeliveryStatus.delivered;
  response_code = some code;
  last_error = none;
  attempt = r.attempt + 1;
}

-- An index out of range is a panic in Go; here it is an error.
abbrev retry : Surroundings → PendingDelivery → ℕ → Bytes → Option ℕ → Exec Db Unit
retry w d code msg none db = (err (new "index out of range"), db)
retry w d code msg (some gap) db =
    update_rows w d.id (mark_retry code (d.attempt + 1) msg (w.clock + gap)) db

unfoldable pub record_failure : Surroundings → PendingDelivery → ℕ → Bytes → Exec Db Unit
record_failure w d code msg =
    if leb (length backoff_schedule + 1) (d.attempt + 1)
    then update_rows w d.id (mark_dead code (d.attempt + 1) msg)
    else retry w d code msg (get_elem? backoff_schedule d.attempt)

abbrev pub is_success : ℕ → Bool
is_success code = leb 200 code && ltb code 300

-- `fmt.Sprintf("HTTP %d: %s", code, body)`, with at most 512 bytes of the body.
unfoldable pub failure_text : ℕ → Bytes → Bytes
unfolding decimal
failure_text code body = bytes "HTTP " ++ (decimal code ++ (bytes ": " ++ take 512 body))

abbrev pub handle : Surroundings → PendingDelivery → Answer → Exec Db Unit
handle w d (failed msg) = record_failure w d 0 msg
handle w d (replied code body) =
    if is_success code
    then update_rows w d.id (mark_delivered code)
    else record_failure w d code (failure_text code body)

unfoldable pub deliver : Surroundings → PendingDelivery → Exec Db Unit
deliver w d = elim (w.request_error d.url) [
  | some msg ↦ record_failure w d 0 msg
  | none ↦ handle w d (w.post d)
]

abbrev pub is_due : ℕ → Delivery → Bool
is_due now r = elim r.status [
  | DeliveryStatus.pending ↦ leb r.next_attempt_at now
  | DeliveryStatus.delivered ↦ Bool.false
  | DeliveryStatus.dead ↦ Bool.false
]

abbrev pub pending_of : Delivery → PendingDelivery
pending_of r = record {
  id = r.id;
  url = r.url;
  payload = r.payload;
  signature = r.signature;
  attempt = r.attempt;
}

-- The batch of `tick`.
unfoldable pub due : ℕ → ℕ → List Delivery → List PendingDelivery
due now batch_size rows =
    map pending_of (take batch_size (order_by (λ r. r.next_attempt_at) (select (is_due now) rows)))

-- The loop: an error of one delivery is logged, and all count as processed.
unfoldable pub deliver_all : (ℕ → Surroundings) → List PendingDelivery → Db → Db
deliver_all at [] db = db
deliver_all at (d ∷ rest) db = deliver_all at rest (deliver (at d.id) d db).1

-- `Worker.tick`; `at` gives each delivery of the batch its own surroundings.
unfoldable pub tick : Postgres → ℕ → (ℕ → Surroundings) → Exec Db ℕ
tick pg batch_size at = statement pg select_deliveries λ db.
    let batch = due pg.now batch_size db.deliveries in (ok (length batch), deliver_all at batch db)
