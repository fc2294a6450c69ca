-- ===== src/Webhook/Snapshots.antt =====
-- internal/webhook/webhook.go, `Service.Enqueue`: when a delivery row is written, and what it holds.
use txmill.Base.{
  ℕ, ◌≡◌, ◌≢◌, ◌⊎◌, inl, inr, ◌||◌, [], ◌∷◌, ◌++◌, none, some, Error, bytes, hex_encode, refl, wrap,
  ok, err, arith, is_empty, Option-cases, Result-cases, Bool-cases,
}
use txmill.Store.{Db, Delivery, DeliveryStatus, Statement}
use txmill.Relay.Get.{Raw, get_raw}
use txmill.Relay.Enqueuer.{Enqueuer}
use txmill.Webhook.Enqueue.{Webhooks, enqueue, sign, new_delivery}

get_raw-db : (w : Webhooks) (id : ℕ) (d : Db) → (get_raw w.pg w.marshal id d).1 ≡ d
unfolding get_raw
get_raw-db w id d = ground arith

-- What a call of `Enqueue` comes to.
pub data Enqueued (w : Webhooks) (id : ℕ) (d : Db) : Type 0 where
  unread :
      {e : Error}
      → (get_raw w.pg w.marshal id d).0 ≡ err e
      → enqueue w id d ≡ (err (wrap "webhook: snapshot status" e), d)
      → Enqueued w id d
  opted_out :
      (raw : Raw)
      → (get_raw w.pg w.marshal id d).0 ≡ ok raw
      → (raw.url ≡ []) ⊎ (raw.secret ≡ [])
      → enqueue w id d ≡ (ok tt, d)
      → Enqueued w id d
  unwritten :
      {e : Error}
      → w.pg.failure Statement.insert_delivery ≡ some e
      → enqueue w id d ≡ (err (wrap "webhook: insert delivery" e), d)
      → Enqueued w id d
  written :
      (raw : Raw) (row : Delivery)
      → (get_raw w.pg w.marshal id d).0 ≡ ok raw
      → raw.url ≢ []
      → raw.secret ≢ []
      → enqueue w id d ≡ (ok tt, record d { deliveries = d.deliveries ++ row ∷ [] })
      → row.request_id ≡ id
      → (row.url ≡ raw.url) × (row.payload ≡ raw.payload)
      → row.signature ≡ bytes "sha256=" ++ hex_encode (w.hmac raw.secret raw.payload)
      → (row.status ≡ DeliveryStatus.pending) × (row.attempt ≡ 0)
      → (row.next_attempt_at ≡ w.pg.now) × (row.response_code ≡ none) × (row.last_error ≡ none)
      → Enqueued w id d

-- A call of `Enqueue` comes to one of four: `GetRaw` fails and so does the call, with nothing written;
-- there is no URL or no secret, and it succeeds without writing; the database refuses the row, and
-- the call fails with nothing written; or it succeeds and appends one row of the request, for the URL
-- and with the payload that `GetRaw` answers, signed with "sha256=" and the hexadecimal digits of the
-- payload's HMAC under the secret, pending, due at once and not yet attempted.
pub enqueue_lem : (w : Webhooks) (id : ℕ) (d : Db) → Enqueued w id d
unfolding enqueue sign
enqueue_lem w id d = elim (Result-cases (get_raw w.pg w.marshal id d).0) [
  | inl (e, failed) ↦ unread failed (ground (arith, get_raw-db w id d))
  | inr (raw, found) ↦ elim (Bool-cases (is_empty raw.url || is_empty raw.secret)) [
    | inl unset ↦ opted_out raw found (ground (arith, unset)) (ground (arith, get_raw-db w id d))
    | inr set ↦ elim (Option-cases (w.pg.failure Statement.insert_delivery)) [
      | inr (e, failed) ↦ unwritten failed (ground (arith, get_raw-db w id d))
      | inl works ↦
          written raw (new_delivery w id raw) found (ground arith) (ground arith)
            (ground (arith, get_raw-db w id d)) refl (refl, refl) refl (refl, refl)
            (refl, refl, refl)
    ]
  ]
]

-- Where `GetRaw` answers for the request with no URL (neither the request nor its app names one) or
-- no secret (the app has none), nothing is written and the call succeeds.
pub enqueue_opt_in :
    (w : Webhooks) (id : ℕ) (d : Db) (raw : Raw)
    → (get_raw w.pg w.marshal id d).0 ≡ ok raw
    → (raw.url ≡ []) ⊎ (raw.secret ≡ [])
    → enqueue w id d ≡ (ok tt, d)
unfolding enqueue
enqueue_opt_in w id d raw found unset = ground (arith, get_raw-db w id d)

pub enqueue-requests : (w : Webhooks) (id : ℕ) (d : Db) → (enqueue w id d).1.requests ≡ d.requests
unfolding enqueue
enqueue-requests w id d = ground (arith, get_raw-db w id d)

pub enqueue-attempts : (w : Webhooks) (id : ℕ) (d : Db) → (enqueue w id d).1.attempts ≡ d.attempts
unfolding enqueue
enqueue-attempts w id d = ground (arith, get_raw-db w id d)

-- The webhook service is what the relay asks of an enqueuer.
abbrev pub webhook_enqueuer : Webhooks → Enqueuer
webhook_enqueuer w = record {
  enqueue = enqueue w;
  keeps_requests = enqueue-requests w;
  keeps_attempts = enqueue-attempts w;
}
