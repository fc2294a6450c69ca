-- ===== src/Relay/Goroutines/Filed.antt =====
-- internal/relay/service.go: every attempt that a goroutine stores is for a stored request.
use txmill.Base.{
  ℕ, zero, suc, ◌≡◌, refl, sym, ap, subst, ◌∙◌, inl, inr, true, [], ◌∷◌, ◌++◌, Option, none, some,
  Error, arith, Option-cases, Result-cases,
}
use txmill.Store.{Db, RequestStatus, AttemptStatus, insert_request as insert_request_stmt}
use txmill.Signer.Pool.{SignerRef, deref}
use txmill.Relay.References.{
  Grows, Keeps, has_request, has_request-append, has_request_last, same-Keeps, Keeps-trans,
  References-grown, mark_request-Keeps, mark_attempt-Keeps, mark_submitted-Keeps,
  insert_attempt-Keeps, fire-Keeps,
}
use txmill.Relay.Service.{
  Service, SubmitInput, World, validate, insert_request, insert_attempt, mark_submitted,
  mark_attempt_status, fire_webhook, mark_request_status, new_request, submit,
}
use txmill.Relay.Goroutines.Endings.{alone, outcome, more}
use txmill.Relay.Goroutines.Alone.{alone-submit}
use txmill.Relay.Goroutines.{
  Goroutine, entering, loading, installing, waiting, lent, rejecting, priced, reserved, recording,
  sending, rewinding, failing, accepted, notifying, releasing, returned, advance, leave,
  after_rewind,
}

-- The stored request of a goroutine that has not stored an attempt yet.
abbrev request_of : Goroutine → Option ℕ
request_of (loading s i request) = some request
request_of (installing s i request signers) = some request
request_of (waiting s i request) = some request
request_of (lent s i request ref) = some request
request_of (priced s i request ref gas price) = some request
request_of (reserved s i request ref gas price nonce) = some request
request_of (recording s request ref x nonce price) = some request
request_of _ = none

abbrev IsFiled : Goroutine → Db → Type 0
IsFiled g d = (id : ℕ) → request_of g ≡ some id → has_request id d.requests ≡ true

request_of-leave : (held : Option SignerRef) (e : Error) → request_of (leave held e) ≡ none
request_of-leave none e = refl
request_of-leave (some ref) e = refl

request_of-after_rewind :
    (ref : SignerRef) (e : Error) (m : Option (Service × ℕ))
    → request_of (after_rewind ref e m) ≡ none
request_of-after_rewind ref e none = refl
request_of-after_rewind ref e (some (s, attempt)) = refl

unfiled : (g : Goroutine) (d : Db) → request_of g ≡ none → IsFiled g d
unfiled g d f id e = absurd (ground (arith, f, e))

abbrev Filing : Goroutine → World → World → Type 0
Filing g' w w' = Keeps w.db w'.db × IsFiled g' w'.db

-- A step that leaves the database alone.
reading : (g' : Goroutine) (w w' : World) → w'.db ≡ w.db → IsFiled g' w.db → Filing g' w w'
reading g' w w' e f = (
  same-Keeps w.db w'.db (ap (λ d. d.attempts) e) (ap (λ d. d.requests) e),
  λ id h. ap (λ d. has_request id d.requests) e ∙ f id h,
)

-- One that writes to it, for a goroutine without such a request afterwards.
writing :
    (g' : Goroutine) (w w' : World) (d : Db)
    → d ≡ w'.db
    → Keeps w.db d
    → request_of g' ≡ none
    → Filing g' w w'
writing g' w w' d e k f = (subst (Keeps w.db) e k, unfiled g' w'.db f)

entering-Filing :
    (s : Service) (i : SubmitInput) (g' : Goroutine) (w w' : World)
    → advance (entering s i) w ≡ some (g', w')
    → Filing g' w w'
unfolding advance insert_request
entering-Filing s i g' w w' e = elim (Result-cases (validate s i)) [
  | inl (x, bad) ↦ reading g' w w' (ground arith) (unfiled g' w.db (ground arith))
  | inr (u, valid) ↦ elim (Option-cases (s.pg.failure insert_request_stmt)) [
    | inr (x, fails) ↦ reading g' w w' (ground arith) (unfiled g' w.db (ground arith))
    | inl works ↦
        let new = new_request s.pg i in
        let rows : w'.db.requests ≡ w.db.requests ++ new ∷ [] = ground arith in
        let attempts : w'.db.attempts ≡ w.db.attempts = ground arith in
        let is : request_of g' ≡ some new.id = ground arith in
        let grows : Grows w.db w'.db =
          λ q h. ap (has_request q) rows ∙ has_request-append q w.db.requests (new ∷ []) h in
        (
          (References-grown w.db w'.db attempts grows, grows),
          λ id h.
              let own : id ≡ new.id = ground (arith, is, h) in
              ap (λ q. has_request q w'.db.requests) own
              ∙ ap (has_request new.id) rows
              ∙ has_request_last w.db.requests new,
        )
  ]
]

advance-Filing :
    (g g' : Goroutine) (w w' : World)
    → IsFiled g w.db
    → advance g w ≡ some (g', w')
    → Filing g' w w'
unfolding advance
advance-Filing (entering s i) g' w w' f e = entering-Filing s i g' w w' e
advance-Filing (loading s i request) g' w w' f e =
    reading g' w w' (ground arith) λ id h. ground (arith, f request refl)
advance-Filing (installing s i request signers) g' w w' f e =
    reading g' w w' (ground arith) λ id h. ground (arith, f request refl)
advance-Filing (waiting s i request) g' w w' f e =
    reading g' w w' (ground arith) λ id h. ground (arith, f request refl)
advance-Filing (lent s i request ref) g' w w' f e =
    reading g' w w' (ground arith) λ id h. ground (arith, f request refl)
advance-Filing (rejecting s request held x) g' w w' f e =
    writing g' w w' (mark_request_status s request RequestStatus.rejected w.db).1 (ground arith)
      (mark_request-Keeps s request RequestStatus.rejected w.db)
      (ground (arith, request_of-leave held x))
advance-Filing (priced s i request ref gas price) g' w w' f e =
    reading g' w w' (ground arith) λ id h. ground (arith, f request refl)
advance-Filing (reserved s i request ref gas price nonce) g' w w' f e =
    reading g' w w' (ground arith) λ id h. ground (arith, f request refl)
advance-Filing (recording s request ref x nonce price) g' w w' f e =
    elim (Option-cases (deref w.pool ref)) [
      | inl lost ↦ absurd (ground arith)
      | inr (sig, l) ↦
          writing g' w w' (insert_attempt s.pg request sig.address nonce x.hash price w.db).1
            (ground arith)
            (insert_attempt-Keeps s request sig.address nonce x.hash price w.db (f request refl))
            (ground arith)
    ]
advance-Filing (sending s request attempt ref x) g' w w' f e =
    reading g' w w' (ground arith) (unfiled g' w.db (ground arith))
advance-Filing (rewinding ref m x) g' w w' f e =
    reading g' w w' (ground arith)
      (unfiled g' w.db (ground (arith, request_of-after_rewind ref x m)))
advance-Filing (failing s attempt ref x) g' w w' f e =
    writing g' w w' (mark_attempt_status s attempt AttemptStatus.failed w.db).1 (ground arith)
      (mark_attempt-Keeps s attempt AttemptStatus.failed w.db) (ground arith)
advance-Filing (accepted s request attempt ref x) g' w w' f e =
    writing g' w w' (mark_submitted s request attempt w.db).1 (ground arith)
      (mark_submitted-Keeps s request attempt w.db) (ground arith)
advance-Filing (notifying s request ref x) g' w w' f e =
    writing g' w w' (fire_webhook s.webhooks request w.db) (ground arith)
      (fire-Keeps s s.webhooks request w.db) (ground arith)
advance-Filing (releasing ref x) g' w w' f e =
    reading g' w w' (ground arith) (unfiled g' w.db (ground arith))
advance-Filing (returned x) g' w w' f e = absurd (ground arith)

alone-Keeps : (k : ℕ) (g : Goroutine) (w : World) → IsFiled g w.db → Keeps w.db (alone k g w).1.db
unfolding alone
alone-Keeps zero g w f = same-Keeps w.db w.db refl refl
alone-Keeps (suc k) g w f = elim (Option-cases (advance g w)) [
  | inl stops ↦ rw (stops, alone) (same-Keeps w.db w.db refl refl)
  | inr ((g', w'), e) ↦
      let (kept, filed) = advance-Filing g g' w w' f e in
      let rest = alone-Keeps k g' w' filed in
      rw (e, alone) (Keeps-trans w.db w'.db (alone k g' w').1.db kept rest)
]

outcome-world : (g : Goroutine) (w : World) → (outcome (g, w)).1 ≡ w
outcome-world (entering s i) w = refl
outcome-world (loading s i request) w = refl
outcome-world (installing s i request signers) w = refl
outcome-world (waiting s i request) w = refl
outcome-world (lent s i request ref) w = refl
outcome-world (rejecting s request held x) w = refl
outcome-world (priced s i request ref gas price) w = refl
outcome-world (reserved s i request ref gas price nonce) w = refl
outcome-world (recording s request ref x nonce price) w = refl
outcome-world (sending s request attempt ref x) w = refl
outcome-world (rewinding ref m x) w = refl
outcome-world (failing s attempt ref x) w = refl
outcome-world (accepted s request attempt ref x) w = refl
outcome-world (notifying s request ref x) w = refl
outcome-world (releasing ref x) w = refl
outcome-world (returned x) w = refl

-- `Submit` keeps the reference, and takes no request away.
pub submit-Keeps : (s : Service) (i : SubmitInput) (w : World) → Keeps w.db (submit s i w).1.db
submit-Keeps s i w =
    let run = alone (more 12 0) (entering s i) w in
    subst (λ x. Keeps w.db x.1.db) (alone-submit 0 s i w)
      (subst (Keeps w.db) (ap (λ v. v.db) (sym (outcome-world run.0 run.1)))
        (alone-Keeps (more 12 0) (entering s i) w (unfiled (entering s i) w.db refl)))
