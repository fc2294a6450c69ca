-- ===== src/Relay/Recovery.antt =====
-- internal/relay/recovery.go: the report at startup, and what the workers find after it.
use txmill.Base.{
  ℕ, zero, suc, ◌≡◌, ◌≢◌, refl, sym, subst, Bool, true, false, ◌&&◌, ◌||◌, not, List, [], ◌∷◌, map,
  none, some, Result, ok, err, wrap, arith, All, All-order_by, length, select, take, order_by, ◌==◌,
}
use txmill.Store.{
  Request, RequestStatus, Attempt, Delivery, DeliveryStatus, Db, Postgres, count_attempts,
  count_deliveries, select_stuck,
}
use txmill.Relay.Watcher.{is_open, open_batch, join_requests}

pub record StuckRequest : Type 0 where
  pub request_id : ℕ
  pub app_id : ℕ
  pub created_at : ℕ

pub record RecoveryReport : Type 0 where
  pub inflight_attempts : ℕ
  pub pending_webhook_deliveries : ℕ
  pub stuck_requests : List StuckRequest

abbrev is_pending_delivery : Delivery → Bool
is_pending_delivery r = elim r.status [
  | DeliveryStatus.pending ↦ true
  | DeliveryStatus.delivered ↦ false
  | DeliveryStatus.dead ↦ false
]

abbrev is_pending : Request → Bool
is_pending r = elim r.status [ RequestStatus.pending ↦ true | _ ↦ false ]

abbrev has_attempt : ℕ → List Attempt → Bool
has_attempt id [] = false
has_attempt id (a ∷ rest) = a.request_id == id || has_attempt id rest

abbrev is_stuck : List Attempt → Request → Bool
is_stuck attempts r = is_pending r && not (has_attempt r.id attempts)

abbrev stuck_row : Request → StuckRequest
stuck_row r = record { request_id = r.id; app_id = r.app_id; created_at = r.created_at }

abbrev stuck_in : Db → List StuckRequest
stuck_in d = map stuck_row (order_by (λ r. r.created_at) (select (is_stuck d.attempts) d.requests))

-- `Recover`
unfoldable pub recover : Postgres → Db → Result RecoveryReport
recover pg d = elim (pg.failure count_attempts) [
  | some e ↦ err (wrap "count inflight attempts" e)
  | none ↦ elim (pg.failure count_deliveries) [
    | some e ↦ err (wrap "count webhook deliveries" e)
    | none ↦ elim (pg.failure select_stuck) [
      | some e ↦ err (wrap "scan stuck requests" e)
      | none ↦ ok (record {
        inflight_attempts = length (select is_open d.attempts);
        pending_webhook_deliveries = length (select is_pending_delivery d.deliveries);
        stuck_requests = stuck_in d;
      })
    ]
  ]
]

reports :
    (pg : Postgres) (d : Db) (rep : RecoveryReport)
    → recover pg d ≡ ok rep
    → rep ≡ record {
      inflight_attempts = length (select is_open d.attempts);
      pending_webhook_deliveries = length (select is_pending_delivery d.deliveries);
      stuck_requests = stuck_in d;
    }
unfolding recover
reports pg d rep h = ground arith

take_nil {ℓ} : {A : Type ℓ} (n : ℕ) → take {A = A} n [] ≡ []
take_nil zero = refl
take_nil (suc n) = refl

nothing_open : (xs : List Attempt) → length (select is_open xs) ≡ 0 → select is_open xs ≡ []
nothing_open xs h = emptied (select is_open xs) h
  where
    emptied : (ys : List Attempt) → length ys ≡ 0 → ys ≡ []
    emptied [] e = refl
    emptied (y ∷ ys) e = absurd (ground arith)

-- Where the report counts no attempt in flight, the watcher's batch is empty, whatever its size.
pub recover-open_batch :
    (pg : Postgres) (d : Db) (rep : RecoveryReport) (n : ℕ)
    → recover pg d ≡ ok rep
    → rep.inflight_attempts ≡ 0
    → open_batch n d ≡ []
unfolding open_batch join_requests
recover-open_batch pg d rep n h idle =
    let is_rep = reports pg d rep h in
    let none_open = nothing_open d.attempts (ground (arith, is_rep)) in rw none_open (take_nil n)

no_attempt :
    (id : ℕ) (xs : List Attempt) → has_attempt id xs ≡ false → All (λ a. a.request_id ≢ id) xs
no_attempt id [] h = tt
no_attempt id (x ∷ xs) h = (ground arith, no_attempt id xs (ground arith))

-- No attempt is of this request.
abbrev IsUntried : List Attempt → ℕ → Type 0
IsUntried attempts id = All (λ a. a.request_id ≢ id) attempts

select-IsUntried :
    (attempts : List Attempt) (rs : List Request)
    → All (λ r. IsUntried attempts r.id) (select (is_stuck attempts) rs)
select-IsUntried attempts [] = tt
select-IsUntried attempts (r ∷ rs) =
    ground (arith, select-IsUntried attempts rs, no_attempt r.id attempts)

map-IsUntried :
    (attempts : List Attempt) (rs : List Request)
    → All (λ r. IsUntried attempts r.id) rs
    → All (λ s. IsUntried attempts s.request_id) (map stuck_row rs)
map-IsUntried attempts [] h = tt
map-IsUntried attempts (r ∷ rs) h = (h.0, map-IsUntried attempts rs h.1)

-- No request that the report calls stuck has an attempt, of whatever status.
pub recover-IsUntried :
    (pg : Postgres) (d : Db) (rep : RecoveryReport)
    → recover pg d ≡ ok rep
    → All (λ s. All (λ a. a.request_id ≢ s.request_id) d.attempts) rep.stuck_requests
recover-IsUntried pg d rep h =
    let chosen = select (is_stuck d.attempts) d.requests in
    let sorted =
      All-order_by (λ r. IsUntried d.attempts r.id) (λ r. r.created_at) chosen
        (select-IsUntried d.attempts d.requests) in
    let listed = map-IsUntried d.attempts (order_by (λ r. r.created_at) chosen) sorted in
    subst (λ x. All (λ s. IsUntried d.attempts s.request_id) x.stuck_requests)
      (sym (reports pg d rep h)) listed
