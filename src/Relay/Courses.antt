-- ===== src/Relay/Courses.antt =====
-- internal/relay/service.go: the ways in which a call of `Submit` can go, up to the part that holds
-- a signer.
use txmill.Base.{
  ℕ, ◌≡◌, Option, none, some, Result, ok, err, Error, wrap, arith, inl, inr, Option-cases,
  Result-cases,
}
use txmill.Store.{Db}
use txmill.Signer.{Signer}
use txmill.Signer.Pool.{Pool, SignerRef, deref, load, checkout, release}
use txmill.Relay.Service.{
  Service, SubmitInput, SubmitResult, World, validate, insert_request, relay_with, reject, submit,
}

module _ (s : Service) (i : SubmitInput) (w : World) where
  abbrev pub inserted : Result ℕ × Db
  inserted = insert_request s.pg i w.db

  abbrev pub loaded : Result (Unit {0}) × Pool
  loaded = load s.backends w.pool i.app_id

  abbrev pub ready : Option (Result SignerRef × Pool)
  ready = checkout loaded.1 i.app_id s.cancelled

  abbrev pub holding : Pool → World
  holding q = record w { db = inserted.1; pool = q }

  -- How a call ended, `o`, and the world that it left, `w'`.
  pub data Course (o : Option (Result SubmitResult)) (w' : World) : Type 0 where
    invalid : (e : Error) → validate s i ≡ err e → o ≡ some (err e) → w' ≡ w → Course o w'
    not_inserted :
        (e : Error)
        → validate s i ≡ ok tt
        → inserted.0 ≡ err e
        → o ≡ some (err (wrap "insert request" e))
        → w' ≡ record w { db = inserted.1 }
        → Course o w'
    not_loaded :
        (id : ℕ) (e : Error)
        → validate s i ≡ ok tt
        → inserted.0 ≡ ok id
        → loaded.0 ≡ err e
        → o ≡ some (err (wrap "load signer pool" e))
        → w' ≡ reject s id (holding loaded.1)
        → Course o w'
    waiting :
        (id : ℕ)
        → validate s i ≡ ok tt
        → inserted.0 ≡ ok id
        → loaded.0 ≡ ok tt
        → ready ≡ none
        → o ≡ none
        → w' ≡ holding loaded.1
        → Course o w'
    not_lent :
        (id : ℕ) (e : Error) (q : Pool)
        → validate s i ≡ ok tt
        → inserted.0 ≡ ok id
        → loaded.0 ≡ ok tt
        → ready ≡ some (err e, q)
        → o ≡ some (err (wrap "checkout" e))
        → w' ≡ reject s id (holding q)
        → Course o w'
    dangling :
        (id : ℕ) (ref : SignerRef) (q : Pool)
        → validate s i ≡ ok tt
        → inserted.0 ≡ ok id
        → loaded.0 ≡ ok tt
        → ready ≡ some (ok ref, q)
        → deref q ref ≡ none
        → o ≡ none
        → w' ≡ holding q
        → Course o w'
    unreturned :
        (id : ℕ) (ref : SignerRef) (q : Pool) (sig : Signer)
        → validate s i ≡ ok tt
        → inserted.0 ≡ ok id
        → loaded.0 ≡ ok tt
        → ready ≡ some (ok ref, q)
        → deref q ref ≡ some sig
        → release (relay_with s i ref sig id (holding q)).1.pool ref ≡ none
        → o ≡ none
        → w' ≡ (relay_with s i ref sig id (holding q)).1
        → Course o w'
    relayed :
        (id : ℕ) (ref : SignerRef) (q : Pool) (sig : Signer) (p : Pool)
        → validate s i ≡ ok tt
        → inserted.0 ≡ ok id
        → loaded.0 ≡ ok tt
        → ready ≡ some (ok ref, q)
        → deref q ref ≡ some sig
        → release (relay_with s i ref sig id (holding q)).1.pool ref ≡ some p
        → o ≡ some (relay_with s i ref sig id (holding q)).0
        → w' ≡ record (relay_with s i ref sig id (holding q)).1 { pool = p }
        → Course o w'

  abbrev Submitted : Type 0
  Submitted = Course (submit s i w).0 (submit s i w).1

  held_course :
      (id : ℕ) (ref : SignerRef) (q : Pool)
      → validate s i ≡ ok tt
      → inserted.0 ≡ ok id
      → loaded.0 ≡ ok tt
      → ready ≡ some (ok ref, q)
      → Submitted
  unfolding submit
  held_course id ref q v n l c = elim (Option-cases (deref q ref)) [
    | inl e ↦ dangling id ref q v n l c e (ground arith) (ground arith)
    | inr (sig, e) ↦
        elim (Option-cases (release (relay_with s i ref sig id (holding q)).1.pool ref)) [
          | inl b ↦ unreturned id ref q sig v n l c e b (ground arith) (ground arith)
          | inr (p, b) ↦ relayed id ref q sig p v n l c e b (ground arith) (ground arith)
        ]
  ]

  loaded_course :
      (id : ℕ) → validate s i ≡ ok tt → inserted.0 ≡ ok id → loaded.0 ≡ ok tt → Submitted
  unfolding submit
  loaded_course id v n l = elim (Option-cases ready) [
    | inl e ↦ waiting id v n l e (ground arith) (ground arith)
    | inr ((x, q), e) ↦ elim (Result-cases x) [
      | inl (err₁, f) ↦ not_lent id err₁ q v n l (ground arith) (ground arith) (ground arith)
      | inr (ref, f) ↦ held_course id ref q v n l (ground arith)
    ]
  ]

  -- Every call goes one of these ways.
  pub submit-Course : Course (submit s i w).0 (submit s i w).1
  unfolding submit
  submit-Course = elim (Result-cases (validate s i)) [
    | inl (e, v) ↦ invalid e v (ground arith) (ground arith)
    | inr (u, v) ↦ elim (Result-cases inserted.0) [
      | inl (e, n) ↦ not_inserted e v n (ground arith) (ground arith)
      | inr (id, n) ↦ elim (Result-cases loaded.0) [
        | inl (e, l) ↦ not_loaded id e v n l (ground arith) (ground arith)
        | inr (u', l) ↦ loaded_course id v n l
      ]
    ]
  ]
