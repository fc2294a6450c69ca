-- ===== src/Relay/Appends.antt =====
-- internal/relay/service.go: a call of `Submit` adds its own row to `relay_requests`, and leaves every
-- other row as it was.
use txmill.Base.{
  ℕ, ◌≡◌, ◌≢◌, ◌⊎◌, inl, inr, refl, ap, subst, ◌∙◌, List, [], ◌∷◌, ◌++◌, Option, Result, ok, err,
  Error, arith, map, All,
}
use txmill.Store.{Request, RequestStatus, insert_request as insert_request_stmt}
use txmill.Signer.{Signer}
use txmill.Signer.Pool.{Pool, SignerRef, load}
use txmill.Relay.Service.{
  Service, SubmitInput, SubmitResult, World, insert_request, new_request, submit, reject,
  relay_with,
}
use txmill.Relay.Courses.{
  Course, invalid, not_inserted, not_loaded, waiting, not_lent, dangling, unreturned, relayed,
  holding, submit-Course,
}
use txmill.Relay.Rows.{masked, SameBut, mark-SameBut, relay_with-SameBut}

same_of_masked : (id : ℕ) (x y : Request) → masked id x ≡ masked id y → y.id ≢ id → x ≡ y
same_of_masked id x y e ne = ground arith

-- Rows that are the same as `rs` with a new one, but for the new one's status and time.
last_of_masked :
    (id : ℕ) (new : Request) (rs xs : List Request)
    → All (λ r. r.id ≢ id) rs
    → map (masked id) xs ≡ map (masked id) (rs ++ new ∷ [])
    → (row : Request) × (xs ≡ rs ++ row ∷ []) × (masked id row ≡ masked id new)
last_of_masked id new [] [] f e = absurd (ground arith)
last_of_masked id new [] (x ∷ []) f e = (x, refl, ground arith)
last_of_masked id new [] (x ∷ y ∷ xs) f e = absurd (ground arith)
last_of_masked id new (r ∷ rs) [] f e = absurd (ground arith)
last_of_masked id new (r ∷ rs) (x ∷ xs) f e =
    let (row, all, same) = last_of_masked id new rs xs f.1 (ground arith) in
    let first : x ≡ r = same_of_masked id x r (ground arith) f.0 in
    (row, ground (arith, all, first), same)

module _ (s : Service) (i : SubmitInput) (w : World) where
  abbrev id : ℕ
  id = s.pg.new_id insert_request_stmt

  abbrev Appended : World → Type 0
  Appended w' =
      map (masked id) w'.db.requests ≡ map (masked id) (w.db.requests ++ new_request s.pg i ∷ [])

  stored_rows :
      (n : ℕ)
      → (insert_request s.pg i w.db).0 ≡ ok n
      → (n ≡ id)
        × ((insert_request s.pg i w.db).1.requests ≡ w.db.requests ++ new_request s.pg i ∷ [])
  unfolding insert_request
  stored_rows n h = (ground arith, ground arith)

  refused_rows :
      {e : Error}
      → (insert_request s.pg i w.db).0 ≡ err e
      → (insert_request s.pg i w.db).1.requests ≡ w.db.requests
  unfolding insert_request
  refused_rows h = ground arith

  held_rows :
      (n : ℕ) (q : Pool) → (insert_request s.pg i w.db).0 ≡ ok n → Appended (holding s i w q)
  held_rows n q h = ap (map (masked id)) (stored_rows n h).1

  reject_rows :
      (n : ℕ) (q : Pool)
      → (insert_request s.pg i w.db).0 ≡ ok n
      → Appended (reject s n (holding s i w q))
  reject_rows n q h =
      let (same, rows) = stored_rows n h in
      subst (λ m. SameBut m (reject s n (holding s i w q)).db (holding s i w q).db) same
        (mark-SameBut s n RequestStatus.rejected (holding s i w q).db)
      ∙ held_rows n q h

  lent_rows :
      (n : ℕ) (ref : SignerRef) (q : Pool) (sig : Signer)
      → (insert_request s.pg i w.db).0 ≡ ok n
      → Appended (relay_with s i ref sig n (holding s i w q)).1
  lent_rows n ref q sig h =
      let (same, rows) = stored_rows n h in
      subst (λ m. SameBut m (relay_with s i ref sig n (holding s i w q)).1.db (holding s i w q).db)
        same (relay_with-SameBut s n ref i sig (holding s i w q))
      ∙ held_rows n q h

  Course-rows :
      (o : Option (Result SubmitResult)) (w' : World)
      → Course s i w o w'
      → (w'.db.requests ≡ w.db.requests) ⊎ Appended w'
  Course-rows o w' (invalid e v x d) = inl (ground arith)
  Course-rows o w' (not_inserted e v n x d) = inl (ground (arith, refused_rows n))
  Course-rows o w' (not_loaded a e v n l x d) =
      inr (rw d (reject_rows a (load s.backends w.pool i.app_id).1 n))
  Course-rows o w' (waiting a v n l c x d) =
      inr (rw d (held_rows a (load s.backends w.pool i.app_id).1 n))
  Course-rows o w' (not_lent a e q v n l c x d) = inr (rw d (reject_rows a q n))
  Course-rows o w' (dangling a ref q v n l c k x d) = inr (rw d (held_rows a q n))
  Course-rows o w' (unreturned a ref q sig v n l c k b x d) = inr (rw d (lent_rows a ref q sig n))
  Course-rows o w' (relayed a ref q sig p v n l c k b x d) = inr (rw d (lent_rows a ref q sig n))

  -- A call of `Submit` leaves the requests as they were, or adds one row at the end: its own, with
  -- the new id and the fields of the input, of which only the status and the time of the last
  -- change may have moved on. No other row changes. It is assumed that the new id is no row's.
  pub submit_appends :
      All (λ r. r.id ≢ s.pg.new_id insert_request_stmt) w.db.requests
      → ((submit s i w).1.db.requests ≡ w.db.requests)
        ⊎ ((row : Request) × ((submit s i w).1.db.requests ≡ w.db.requests ++ row ∷ [])
            × (masked id row ≡ masked id (new_request s.pg i)))
  submit_appends fresh = elim (Course-rows _ _ (submit-Course s i w)) [
    | inl same ↦ inl same
    | inr more ↦ inr (
        last_of_masked id (new_request s.pg i) w.db.requests (submit s i w).1.db.requests fresh
          more)
  ]
