-- ===== src/Webhook/Enqueue.antt =====
-- internal/webhook/webhook.go, `Service`: a delivery is a signed snapshot of a request's status.
use txmill.Base.{
  hex_encode, ℕ, ◌||◌, [], ◌∷◌, ◌++◌, none, some, Bytes, bytes, Result, ok, err, wrap, is_empty,
  if◌then◌else◌,
}
use txmill.Store.{Delivery, DeliveryStatus, Db, Exec, Postgres, insert_delivery}
use txmill.Relay.Get.{Status, Raw, get_raw}

-- `sign`; `hmac` is HMAC-SHA256 of a key and a message.
unfoldable pub sign : (Bytes → Bytes → Bytes) → Bytes → Bytes → Bytes
sign hmac secret body = bytes "sha256=" ++ hex_encode (hmac secret body)

-- The libraries that `Enqueue` calls, and the database as the call meets it.
pub record Webhooks : Type 0 where
  pub pg : Postgres
  pub marshal : Status → Result Bytes
  pub hmac : Bytes → Bytes → Bytes

-- The row of `INSERT INTO webhook_deliveries`, with the columns' defaults.
abbrev pub new_delivery : Webhooks → ℕ → Raw → Delivery
new_delivery w id raw = record {
  id = w.pg.new_id insert_delivery;
  request_id = id;
  url = raw.url;
  payload = raw.payload;
  signature = sign w.hmac raw.secret raw.payload;
  attempt = 0;
  status = DeliveryStatus.pending;
  response_code = none;
  last_error = none;
  created_at = w.pg.now;
  next_attempt_at = w.pg.now;
}

abbrev insert_row : Delivery → Exec Db Unit
insert_row row d = (ok tt, record d { deliveries = d.deliveries ++ row ∷ [] })

abbrev insert_snapshot : Webhooks → ℕ → Raw → Exec Db Unit
insert_snapshot w id raw = elim (w.pg.failure insert_delivery) [
  | none ↦ insert_row (new_delivery w id raw)
  | some e ↦ λ d. (err (wrap "webhook: insert delivery" e), d)
]

abbrev enqueue_raw : Webhooks → ℕ → Result Raw → Exec Db Unit
enqueue_raw w id (err e) d = (err (wrap "webhook: snapshot status" e), d)
enqueue_raw w id (ok raw) d =
    if is_empty raw.url || is_empty raw.secret then (ok tt, d) else insert_snapshot w id raw d

-- `Service.Enqueue`
unfoldable pub enqueue : Webhooks → ℕ → Exec Db Unit
enqueue w id d = let (r, d') = get_raw w.pg w.marshal id d in enqueue_raw w id r d'
