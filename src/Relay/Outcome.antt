-- ===== src/Relay/Outcome.antt =====
-- internal/relay/service.go: the status in which a call of `Submit` leaves its request, by how the
-- call ended.
use txmill.Base.{ℕ, ◌≡◌, Option, none, some, Result, ok, arith}
use txmill.Store.{
  RequestStatus, insert_request as insert_request_stmt, update_request as update_request_stmt,
}
use txmill.Signer.Pool.{load, Pool}
use txmill.Relay.Service.{
  validate, Service, SubmitInput, SubmitResult, World, insert_request, submit, reject, new_request,
}
use txmill.Relay.Courses.{
  Course, invalid, not_inserted, not_loaded, waiting, not_lent, dangling, unreturned, relayed,
  holding, submit-Course,
}
use txmill.Relay.Marks.{status_in, status_after, status_in-append, mark-status, relay_with-status}

module _ (s : Service) (i : SubmitInput) (w : World) (id : ℕ)
    (works : s.pg.failure update_request_stmt ≡ none)
    (fresh : status_in (s.pg.new_id insert_request_stmt) w.db.requests ≡ none)
    (valid : validate s i ≡ ok tt) (stored : (insert_request s.pg i w.db).0 ≡ ok id) where
  pending_row : status_in id (insert_request s.pg i w.db).1.requests ≡ some RequestStatus.pending
  unfolding insert_request
  pending_row = ground (arith, status_in-append (new_request s.pg i) w.db.requests fresh)

  rejected_row :
      (q : Pool)
      → status_in id (reject s id (holding s i w q)).db.requests ≡ some RequestStatus.rejected
  rejected_row q =
      mark-status s id works RequestStatus.rejected (insert_request s.pg i w.db).1 pending_row

  Course-status :
      (o : Option (Result SubmitResult)) (w' : World) (r : Result SubmitResult)
      → Course s i w o w'
      → o ≡ some r
      → status_in id w'.db.requests ≡ some (status_after r)
  Course-status o w' r (invalid e v x d) h = cc
  Course-status o w' r (not_inserted e v n x d) h = cc
  Course-status o w' r (not_loaded a e v n l x d) h =
      ground (arith, rejected_row (load s.backends w.pool i.app_id).1)
  Course-status o w' r (waiting a v n l c x d) h = cc
  Course-status o w' r (not_lent a e q v n l c x d) h = ground (arith, rejected_row q)
  Course-status o w' r (dangling a ref q v n l c k x d) h = cc
  Course-status o w' r (unreturned a ref q sig v n l c k b x d) h = cc
  Course-status o w' r (relayed a ref q sig p v n l c k b x d) h =
      ground (arith, relay_with-status s id works ref i sig (holding s i w q) pending_row)

  -- A call that stored its request and ended leaves the request's row `submitted` if it succeeded,
  -- `rejected` if it failed before a nonce was reserved (loading the pool, checkout, gas estimate,
  -- gas price), and `pending` if it failed later (signing, storing the attempt, broadcast, marking
  -- it submitted). It is assumed that the new row's id is new, and that the database does not fail
  -- to update a request.
  pub submit-status :
      (r : Result SubmitResult)
      → (submit s i w).0 ≡ some r
      → status_in id (submit s i w).1.db.requests ≡ some (status_after r)
  submit-status r h = Course-status _ _ r (submit-Course s i w) h
