-- ===== src/Relay/References.antt =====
-- internal/relay: the reference from `tx_attempts` to `relay_requests`, which the schema demands.
use txmill.Base.{
  ℕ, ◌≡◌, refl, sym, ap, subst, ◌∙◌, ◌⊎◌, inl, inr, Bool, true, false, ◌||◌, List, [], ◌∷◌, ◌++◌,
  Option, arith, All, All-mono, update_where, ◌==◌, ==_refl, if◌then◌else◌, Option-cases,
  Result-cases,
}
use txmill.Store.{Db, Request, RequestStatus, Attempt, AttemptStatus, update_attempt}
use txmill.Relay.Marks.{fire-requests}
use txmill.Relay.Enqueuer.{Enqueuer}
use txmill.Relay.Receipts.{fire-attempts}
use txmill.Relay.Quiet.{All-append}
use txmill.Relay.Service.{
  Service, insert_attempt, mark_request_status, mark_attempt_status, mark_submitted, fire_webhook,
  set_request_status, set_attempt_status, new_attempt,
}

abbrev pub has_request : ℕ → List Request → Bool
has_request id [] = false
has_request id (r ∷ rest) = r.id == id || has_request id rest

-- Every attempt is for a stored request.
abbrev pub References : Db → Type 0
References d = All (λ a. has_request a.request_id d.requests ≡ true) d.attempts

-- No stored request goes.
abbrev pub Grows : Db → Db → Type 0
Grows d d' = (id : ℕ) → has_request id d.requests ≡ true → has_request id d'.requests ≡ true

pub has_request-append :
    (id : ℕ) (xs ys : List Request) → has_request id xs ≡ true → has_request id (xs ++ ys) ≡ true
has_request-append id [] ys h = cc
has_request-append id (x ∷ xs) ys h = ground (arith, has_request-append id xs ys)

pub has_request_last : (xs : List Request) (x : Request) → has_request x.id (xs ++ x ∷ []) ≡ true
has_request_last [] x = ground (arith, ==_refl x.id)
has_request_last (y ∷ xs) x = ground (arith, has_request_last xs x)

pub has_request-update_where :
    (id : ℕ) (p : Request → Bool) (f : Request → Request) (xs : List Request)
    → ((x : Request) → (f x).id ≡ x.id)
    → has_request id (update_where p f xs) ≡ has_request id xs
has_request-update_where id p f [] same = refl
has_request-update_where id p f (x ∷ xs) same =
    ground (arith, same x, has_request-update_where id p f xs same)

pub All-references :
    (p : Attempt → Bool) (f : Attempt → Attempt) (rs : List Request) (xs : List Attempt)
    → ((x : Attempt) → (f x).request_id ≡ x.request_id)
    → All (λ a. has_request a.request_id rs ≡ true) xs
    → All (λ a. has_request a.request_id rs ≡ true) (update_where p f xs)
All-references p f rs [] same h = tt
All-references p f rs (x ∷ xs) same h = (at_head (p x), All-references p f rs xs same h.1)
  where
    at_head : (b : Bool) → has_request (if b then f x else x).request_id rs ≡ true
    at_head true = ap (λ q. has_request q rs) (same x) ∙ h.0
    at_head false = h.0

pub References-grown :
    (d d' : Db) → d'.attempts ≡ d.attempts → Grows d d' → References d → References d'
References-grown d d' e grows h =
    subst (All (λ a. has_request a.request_id d'.requests ≡ true)) (sym e) (
      All-mono (λ a. has_request a.request_id d.requests ≡ true)
        (λ a. has_request a.request_id d'.requests ≡ true) d.attempts (λ a. grows a.request_id) h)

-- Both tables as a step leaves them: the attempts still have their requests, and no request goes.
abbrev pub Keeps : Db → Db → Type 0
Keeps d d' = (References d → References d') × Grows d d'

pub same-Keeps : (d d' : Db) → d'.attempts ≡ d.attempts → d'.requests ≡ d.requests → Keeps d d'
same-Keeps d d' a r =
    let grows : Grows d d' = λ id h. ap (has_request id) r ∙ h in
    (References-grown d d' a grows, grows)

pub Keeps-trans : (d e f : Db) → Keeps d e → Keeps e f → Keeps d f
Keeps-trans d e f x y = (λ h. y.0 (x.0 h), λ id h. y.1 id (x.1 id h))

module _ (s : Service) where
  pub set_request-Keeps :
      (id : ℕ) (st : RequestStatus) (d : Db) → Keeps d (set_request_status s.pg id st d)
  set_request-Keeps id st d =
      let grows : Grows d (set_request_status s.pg id st d) = λ q h.
        has_request-update_where q (λ r. r.id == id)
          (λ r. record r { status = st; updated_at = s.pg.now }) d.requests (λ r. refl)
        ∙ h in
      (References-grown d (set_request_status s.pg id st d) refl grows, grows)

  pub set_attempt-Keeps :
      (id : ℕ) (st : AttemptStatus) (d : Db) → Keeps d (set_attempt_status id st d)
  set_attempt-Keeps id st d = (
    All-references (λ a. a.id == id) (λ a. record a { status = st }) d.requests d.attempts
        (λ a. refl),
    λ q h. h,
  )

  pub fire-Keeps : (w : Option Enqueuer) (id : ℕ) (d : Db) → Keeps d (fire_webhook w id d)
  fire-Keeps w id d =
      same-Keeps d (fire_webhook w id d) (fire-attempts w id d) (fire-requests w id d)

  pub mark_request-Keeps :
      (id : ℕ) (st : RequestStatus) (d : Db) → Keeps d (mark_request_status s id st d).1
  unfolding mark_request_status
  mark_request-Keeps id st d =
      let marked = set_request_status s.pg id st d in
      let d' = (mark_request_status s id st d).1 in
      let grows : Grows d d' = λ q h.
        let kept = (set_request-Keeps id st d).1 q h in
        grind (arith, fire-requests s.webhooks id marked, kept) in
      (References-grown d d' (grind (arith, fire-attempts s.webhooks id marked)) grows, grows)

  pub mark_attempt-Keeps :
      (id : ℕ) (st : AttemptStatus) (d : Db) → Keeps d (mark_attempt_status s id st d).1
  unfolding mark_attempt_status
  mark_attempt-Keeps id st d = elim (Option-cases (s.pg.failure update_attempt)) [
    | inr (e, fails) ↦ same-Keeps d (mark_attempt_status s id st d).1 (ground arith) (ground arith)
    | inl works ↦
        let after : set_attempt_status id st d ≡ (mark_attempt_status s id st d).1 = ground arith in
        subst (Keeps d) after (set_attempt-Keeps id st d)
  ]

  both_marked :
      (request attempt : ℕ) (d : Db)
      → Keeps d (
          set_request_status s.pg request RequestStatus.submitted
            (set_attempt_status attempt AttemptStatus.submitted d))
  both_marked request attempt d =
      let one = set_attempt_status attempt AttemptStatus.submitted d in
      Keeps-trans d one (set_request_status s.pg request RequestStatus.submitted one)
        (set_attempt-Keeps attempt AttemptStatus.submitted d)
        (set_request-Keeps request RequestStatus.submitted one)

  mark_submitted_cases :
      (request attempt : ℕ) (d : Db)
      → ((mark_submitted s request attempt d).1 ≡ d)
        ⊎ ((mark_submitted s request attempt d).1
            ≡ set_request_status s.pg request RequestStatus.submitted
                (set_attempt_status attempt AttemptStatus.submitted d))
  unfolding mark_submitted
  mark_submitted_cases request attempt d =
      elim (Result-cases (mark_submitted s request attempt d).0) [
        | inl (e, fails) ↦ inl (ground arith)
        | inr (u, works) ↦ inr (ground arith)
      ]

  pub mark_submitted-Keeps :
      (request attempt : ℕ) (d : Db) → Keeps d (mark_submitted s request attempt d).1
  mark_submitted-Keeps request attempt d = elim (mark_submitted_cases request attempt d) [
    | inl same ↦
        same-Keeps d (mark_submitted s request attempt d).1 (ap (λ x. x.attempts) same)
          (ap (λ x. x.requests) same)
    | inr marked ↦ subst (Keeps d) (sym marked) (both_marked request attempt d)
  ]

  -- An attempt for a stored request.
  pub insert_attempt-Keeps :
      (request address nonce hash price : ℕ) (d : Db)
      → has_request request d.requests ≡ true
      → Keeps d (insert_attempt s.pg request address nonce hash price d).1
  unfolding insert_attempt
  insert_attempt-Keeps request address nonce hash price d there =
      elim (Result-cases (insert_attempt s.pg request address nonce hash price d).0) [
        | inl (e, fails) ↦
            same-Keeps d (insert_attempt s.pg request address nonce hash price d).1 (ground arith)
              (ground arith)
        | inr (id, works) ↦
            let row = new_attempt s.pg request address nonce hash price in
            let stored : record d { attempts = d.attempts ++ row ∷ [] }
                ≡ (insert_attempt s.pg request address nonce hash price d).1 =
              ground arith in
            subst (Keeps d) stored (
              λ h.
                  All-append (λ a. has_request a.request_id d.requests ≡ true) d.attempts row h
                    there,
              λ q h. h,
            )
      ]
