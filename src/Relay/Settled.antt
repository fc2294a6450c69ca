-- ===== src/Relay/Settled.antt =====
-- internal/relay: a request whose receipt is recorded stays as it is, while calls of `Submit` and ticks
-- of the watcher come one after the other.
use txmill.Base.{
  ℕ, ◌≡◌, ◌≢◌, refl, ap, ◌∙◌, List, [], ◌∷◌, ◌++◌, Option, some, Result, ok, err, Error, arith, inl,
  inr, Bool-cases, All, All-mono, update_where, ◌==◌, false,
}
use txmill.Store.{
  Db, Request, Attempt, RequestStatus, Postgres, insert_attempt as insert_attempt_stmt,
  insert_request as insert_request_stmt,
}
use txmill.Signer.{Signer}
use txmill.Signer.Pool.{Pool, SignerRef, load}
use txmill.Relay.Service.{
  Service, SubmitInput, SubmitResult, World, insert_request, relay_with, reject, submit,
}
use txmill.Relay.Courses.{
  Course, invalid, not_inserted, not_loaded, waiting, not_lent, dangling, unreturned, relayed,
  holding, submit-Course,
}
use txmill.Relay.Marks.{status_in}
use txmill.Relay.Watcher.{is_open}
use txmill.Relay.Appends.{submit_appends}
use txmill.Relay.Quiet.{IsQuiet, Quiet, same-Quiet, mark-Quiet, relay_with-Quiet}

module _ (s : Service) (i : SubmitInput) (w : World) (q : ℕ)
    (other : s.pg.new_id insert_request_stmt ≢ q) where
  abbrev n : ℕ
  n = s.pg.new_id insert_attempt_stmt

  inserted_same :
      (id : ℕ)
      → (insert_request s.pg i w.db).0 ≡ ok id
      → (id ≢ q) × ((insert_request s.pg i w.db).1.attempts ≡ w.db.attempts)
  unfolding insert_request
  inserted_same id h = (λ e. other (ground (arith, e)), ground arith)

  refused_same :
      {e : Error}
      → (insert_request s.pg i w.db).0 ≡ err e
      → (insert_request s.pg i w.db).1.attempts ≡ w.db.attempts
  unfolding insert_request
  refused_same h = ground arith

  held-Quiet :
      (id : ℕ) (p : Pool)
      → (insert_request s.pg i w.db).0 ≡ ok id
      → Quiet q n w.db
      → Quiet q n (holding s i w p).db
  held-Quiet id p k h = same-Quiet q n w.db (holding s i w p).db (inserted_same id k).1 h

  rejected-Quiet :
      (id : ℕ) (p : Pool)
      → (insert_request s.pg i w.db).0 ≡ ok id
      → Quiet q n w.db
      → Quiet q n (reject s id (holding s i w p)).db
  rejected-Quiet id p k h =
      mark-Quiet s q id (inserted_same id k).0 RequestStatus.rejected (holding s i w p).db
        (held-Quiet id p k h)

  lent-Quiet :
      (id : ℕ) (ref : SignerRef) (sig : Signer) (p : Pool)
      → (insert_request s.pg i w.db).0 ≡ ok id
      → Quiet q n w.db
      → Quiet q n (relay_with s i ref sig id (holding s i w p)).1.db
  lent-Quiet id ref sig p k h =
      relay_with-Quiet s q id (inserted_same id k).0 ref i sig (holding s i w p)
        (held-Quiet id p k h)

  Course-Quiet :
      (o : Option (Result SubmitResult)) (w' : World)
      → Quiet q n w.db
      → Course s i w o w'
      → Quiet q n w'.db
  Course-Quiet o w' h (invalid e v x d) = same-Quiet q n w.db w'.db (ground arith) h
  Course-Quiet o w' h (not_inserted e v k x d) =
      same-Quiet q n w.db w'.db (ap (λ y. y.db.attempts) d ∙ refused_same k) h
  Course-Quiet o w' h (not_loaded id e v k l x d) =
      rw d (rejected-Quiet id (load s.backends w.pool i.app_id).1 k h)
  Course-Quiet o w' h (waiting id v k l c x d) =
      rw d (held-Quiet id (load s.backends w.pool i.app_id).1 k h)
  Course-Quiet o w' h (not_lent id e p v k l c x d) = rw d (rejected-Quiet id p k h)
  Course-Quiet o w' h (dangling id ref p v k l c j x d) = rw d (held-Quiet id p k h)
  Course-Quiet o w' h (unreturned id ref p sig v k l c j b x d) = rw d (lent-Quiet id ref sig p k h)
  Course-Quiet o w' h (relayed id ref p sig p' v k l c j b x d) = rw d (lent-Quiet id ref sig p k h)

  pub submit-Quiet : Quiet q n w.db → Quiet q n (submit s i w).1.db
  submit-Quiet h = Course-Quiet _ _ h (submit-Course s i w)

-- The request has that status, and none of its attempts is open.
abbrev pub Settled : ℕ → RequestStatus → Db → Type 0
Settled q st d =
    (status_in q d.requests ≡ some st) × All (λ a. a.request_id ≡ q → is_open a ≡ false) d.attempts

status_in-append_some :
    (q : ℕ) {st : RequestStatus} (rs : List Request) (row : Request)
    → status_in q rs ≡ some st
    → status_in q (rs ++ row ∷ []) ≡ some st
status_in-append_some q [] row h = absurd (ground arith)
status_in-append_some q {st} (r ∷ rs) row h =
    ground (arith, status_in-append_some q {st = st} rs row)

other_id :
    (q n : ℕ) {st : RequestStatus} (rs : List Request)
    → status_in q rs ≡ some st
    → All (λ r. r.id ≢ n) rs
    → n ≢ q
other_id q n [] h f e = absurd (ground arith)
other_id q n {st} (r ∷ rs) h f e = elim (Bool-cases (r.id == q)) [
  | inl here ↦ f.0 (ground (arith, e))
  | inr there ↦ other_id q n {st = st} rs (ground arith) f.1 e
]

pub status_in-set_other :
    (pg : Postgres) (q id : ℕ) (st : RequestStatus) (rs : List Request)
    → id ≢ q
    → status_in q
        (update_where (λ r. r.id == id) (λ r. record r { status = st; updated_at = pg.now }) rs)
      ≡ status_in q rs
status_in-set_other pg q id st [] h = refl
status_in-set_other pg q id st (r ∷ rs) h = ground (arith, status_in-set_other pg q id st rs h)

-- The ids that a call of `Submit` gives its rows are new.
abbrev pub IsFresh : Service → Db → Type 0
IsFresh s d =
    All (λ r. r.id ≢ s.pg.new_id insert_request_stmt) d.requests
    × All (λ a. a.id ≢ s.pg.new_id insert_attempt_stmt) d.attempts

quiet :
    (q n : ℕ) (xs : List Attempt)
    → All (λ a. a.request_id ≡ q → is_open a ≡ false) xs
    → All (λ a. a.id ≢ n) xs
    → All (IsQuiet q n) xs
quiet q n [] h f = tt
quiet q n (x ∷ xs) h f = (λ own. (h.0 own, f.0), quiet q n xs h.1 f.1)

pub submit-Settled :
    (s : Service) (i : SubmitInput) (w : World) (q : ℕ) (st : RequestStatus)
    → IsFresh s w.db
    → Settled q st w.db
    → Settled q st (submit s i w).1.db
submit-Settled s i w q st fresh h =
    let new = s.pg.new_id insert_attempt_stmt in
    let other = other_id q (s.pg.new_id insert_request_stmt) {st = st} w.db.requests h.0 fresh.0 in
    let kept = submit-Quiet s i w q other (quiet q new w.db.attempts h.1 fresh.1) in
    let closed =
      All-mono (IsQuiet q new) (λ a. a.request_id ≡ q → is_open a ≡ false)
        (submit s i w).1.db.attempts (λ a k own. (k own).0) kept in
    elim (submit_appends s i w fresh.0) [
      | inl same ↦ (ap (status_in q) same ∙ h.0, closed)
      | inr (row, more, _) ↦
          (ap (status_in q) more ∙ status_in-append_some q {st = st} w.db.requests row h.0, closed)
    ]
