-- ===== src/Relay/Lifecycle.antt =====
-- internal/relay: histories of calls of `Submit` and of ticks of the watcher, one after the other.
use txmill.Base.{
  ℕ, ◌≡◌, ◌≢◌, sym, ap, subst, ◌∙◌, List, [], ◌∷◌, some, Bytes, arith, inl, inr, Option-cases,
  Bool-cases, All, All-take, All-order_by, All-update_where, select, order_by, find, ◌==◌, false,
}
use txmill.Store.{Db, Request, Attempt, RequestStatus, Postgres, Statement}
use txmill.Relay.Service.{Service, SubmitInput, World, submit}
use txmill.Relay.Marks.{status_in, status_in-set}
use txmill.Relay.Watcher.{
  Watcher, Receipt, found, PendingAttempt, is_open, request_outcome, join_requests, open_batch,
  process, process_all, tick,
}
use txmill.Relay.Receipts.{both_set, process_atomic}
use txmill.Relay.Settled.{Settled, IsFresh, submit-Settled, status_in-set_other}

module _ (q : ℕ) where
  abbrev IsClosed : Attempt → Type 0
  IsClosed a = a.request_id ≡ q → is_open a ≡ false

  abbrev IsOther : PendingAttempt → Type 0
  IsOther p = p.request_id ≢ q

  both_set-IsClosed :
      (w : Watcher) (p : PendingAttempt) (r : Receipt) (logs : Bytes) (d : Db)
      → All IsClosed d.attempts
      → All IsClosed (both_set w p r logs d).attempts
  both_set-IsClosed w p r logs d h =
      All-update_where IsClosed IsClosed (λ a. a.id == p.attempt_id) _ d.attempts
        (λ a k e own. ground arith) (λ a k e. k) h

  process-Settled :
      (st : RequestStatus) (w : Watcher) (p : PendingAttempt) (d : Db)
      → IsOther p
      → Settled q st d
      → Settled q st (process w p d).1
  process-Settled st w p d other h = elim (process_atomic w p d) [
    | inl same ↦ subst (Settled q st) (sym same) h
    | inr (r, logs, e, k, done, attempts, requests) ↦ (
      ap (status_in q) requests
          ∙ status_in-set_other w.pg q p.request_id (request_outcome r) d.requests other
          ∙ h.0,
      subst (All IsClosed) (sym attempts) (both_set-IsClosed w p r logs d h.1),
    )
  ]

  process_all-Settled :
      (st : RequestStatus) (at : ℕ → Watcher) (ps : List PendingAttempt) (d : Db)
      → All IsOther ps
      → Settled q st d
      → Settled q st (process_all at ps d).1
  unfolding process_all
  process_all-Settled st at [] d others h = h
  process_all-Settled st at (p ∷ ps) d others h =
      process_all-Settled st at ps (process (at p.attempt_id) p d).1 others.1
        (process-Settled st (at p.attempt_id) p d others.0 h)

  open_others :
      (xs : List Attempt) → All IsClosed xs → All (λ a. a.request_id ≢ q) (select is_open xs)
  open_others [] h = tt
  open_others (a ∷ xs) h = elim (Bool-cases (is_open a)) [
    | inl open_one ↦
        rw open_one (λ own. absurd (ground (arith, sym open_one ∙ h.0 own)), open_others xs h.1)
    | inr closed ↦ ground (arith, open_others xs h.1)
  ]

  join-IsOther :
      (rs : List Request) (xs : List Attempt)
      → All (λ a. a.request_id ≢ q) xs
      → All IsOther (join_requests rs xs)
  unfolding join_requests
  join-IsOther rs [] h = tt
  join-IsOther rs (a ∷ xs) h = elim (Option-cases (find (λ r. r.id == a.request_id) rs)) [
    | inl absent ↦ ground (arith, join-IsOther rs xs h.1)
    | inr (r, there) ↦ rw there (h.0, join-IsOther rs xs h.1)
  ]

  open_batch-IsOther : (n : ℕ) (d : Db) → All IsClosed d.attempts → All IsOther (open_batch n d)
  unfolding open_batch
  open_batch-IsOther n d h =
      let opened = select is_open d.attempts in
      All-take IsOther n _ (
        join-IsOther d.requests (order_by (λ a. a.submitted_at) opened) (
          All-order_by (λ a. a.request_id ≢ q) (λ a. a.submitted_at) opened
            (open_others d.attempts h)))

  same-Settled : (st : RequestStatus) (d d' : Db) → d' ≡ d → Settled q st d → Settled q st d'
  same-Settled st d d' e h = subst (Settled q st) (sym e) h

  tick-Settled :
      (st : RequestStatus) (pg : Postgres) (n : ℕ) (at : ℕ → Watcher) (d : Db)
      → Settled q st d
      → Settled q st (tick pg n at d).1
  unfolding tick
  tick-Settled st pg n at d h = elim (Option-cases (pg.failure Statement.select_attempts)) [
    | inr (e, fails) ↦ same-Settled st d (tick pg n at d).1 (ground arith) h
    | inl works ↦
        same-Settled st (process_all at (open_batch n d) d).1 (tick pg n at d).1 (ground arith)
          (process_all-Settled st at (open_batch n d) d (open_batch-IsOther n d h.1) h)
  ]

-- One step of a history: a call of `Submit`, or a tick of the watcher, with its surroundings.
pub data Step : Type 0 where
  submits : Service → SubmitInput → Step
  ticks_once : Postgres → ℕ → (ℕ → Watcher) → Step

abbrev pub step : Step → World → World
step (submits s i) w = (submit s i w).1
step (ticks_once pg n at) w = record w { db = (tick pg n at w.db).1 }

abbrev pub history : List Step → World → World
history [] w = w
history (x ∷ xs) w = history xs (step x w)

-- Each call of `Submit` gives its rows new ids.
abbrev pub IsFreshStep : Step → World → Type 0
IsFreshStep (submits s i) w = IsFresh s w.db
IsFreshStep (ticks_once pg n at) w = Unit

abbrev pub Fresh : List Step → World → Type 0
Fresh [] w = Unit
Fresh (x ∷ xs) w = IsFreshStep x w × Fresh xs (step x w)

step-Settled :
    (q : ℕ) (st : RequestStatus) (x : Step) (w : World)
    → IsFreshStep x w
    → Settled q st w.db
    → Settled q st (step x w).db
step-Settled q st (submits s i) w fresh h = submit-Settled s i w q st fresh h
step-Settled q st (ticks_once pg n at) w fresh h = tick-Settled q st pg n at w.db h

history-Settled :
    (q : ℕ) (st : RequestStatus) (xs : List Step) (w : World)
    → Fresh xs w
    → Settled q st w.db
    → Settled q st (history xs w).db
history-Settled q st [] w fresh h = h
history-Settled q st (x ∷ xs) w fresh h =
    history-Settled q st xs (step x w) fresh.1 (step-Settled q st x w fresh.0 h)

-- What the watcher's recording of a receipt makes of a request with one attempt.
recorded-Settled :
    (w : Watcher) (p : PendingAttempt) (r : Receipt) (logs : Bytes) (d : Db) {old : RequestStatus}
    → status_in p.request_id d.requests ≡ some old
    → All (λ a. a.request_id ≡ p.request_id → a.id ≡ p.attempt_id) d.attempts
    → (process w p d).1.attempts ≡ (both_set w p r logs d).attempts
    → (process w p d).1.requests ≡ (both_set w p r logs d).requests
    → Settled p.request_id (request_outcome r) (process w p d).1
recorded-Settled w p r logs d {old} there only attempts requests =
    let q = p.request_id in
    (
      ap (status_in q) requests
          ∙ status_in-set w.pg q (request_outcome r) {old = old} d.requests there,
      subst (All (IsClosed q)) (sym attempts) (
          All-update_where (λ a. a.request_id ≡ q → a.id ≡ p.attempt_id) (IsClosed q)
            (λ a. a.id == p.attempt_id) _ d.attempts (λ a k e own. ground arith)
            (λ a k e own. absurd (ground (arith, k own, e))) only),
    )

-- Once the watcher has recorded the receipt of a request, the request keeps that receipt's outcome,
-- confirmed or reverted, over any later history of calls of `Submit` and ticks of the watcher, each
-- with its own surroundings and whatever fails in them, that come one after the other. It is assumed
-- that the request is stored and has one attempt, that the processing changed the database, and that
-- each call of `Submit` gives its rows new ids.
pub process-history :
    (w : Watcher) (p : PendingAttempt) (r : Receipt) (world : World) (old : RequestStatus)
    (xs : List Step)
    → w.transaction_receipt p.tx_hash ≡ found r
    → status_in p.request_id world.db.requests ≡ some old
    → All (λ a. a.request_id ≡ p.request_id → a.id ≡ p.attempt_id) world.db.attempts
    → (process w p world.db).1 ≢ world.db
    → Fresh xs (record world { db = (process w p world.db).1 })
    → status_in p.request_id
        (history xs (record world { db = (process w p world.db).1 })).db.requests
      ≡ some (request_outcome r)
process-history w p r world old xs e there only changed fresh = elim (process_atomic w p world.db) [
  | inl same ↦ absurd (changed same)
  | inr (r', logs, e', k, done, attempts, requests) ↦
      let world' = record world { db = (process w p world.db).1 } in
      let settled =
        recorded-Settled w p r' logs world.db {old = old} there only attempts requests in
      let same : request_outcome r' ≡ request_outcome r = ground (arith, e, e') in
      (history-Settled p.request_id (request_outcome r') xs world' fresh settled).0 ∙ ap some same
]
