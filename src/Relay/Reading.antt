-- ===== src/Relay/Reading.antt =====
-- internal/relay/get.go: who may read a request, and that a reader and a webhook see the same.
use mathlib.Core.List.{Mem, mem-cons_self, mem-cons_of_mem}
use txmill.Base.{
  ℕ, ◌≤◌, ◌≡◌, ◌≢◌, ◌⊎◌, refl, sym, ap, subst, ◌∙◌, Bool, true, leb, select, Bool-cases, Option,
  ◌&&◌, List, [], ◌∷◌, none, some, Bytes, Result, ok, arith, find, All, All-mono, ◌==◌,
  Option-cases, Result-cases, inl, inr,
}
use txmill.Store.{Db, Request, Attempt, Postgres, Statement, or_empty}
use txmill.Relay.Get.{Status, Raw, scan, non_empty, newest, last_attempt, get, get_raw}

find_sound {ℓ} : {A : Type ℓ} (p : A → Bool) (xs : List A) {a : A} → find p xs ≡ some a → p a ≡ true
find_sound p [] h = cc
find_sound p (x ∷ xs) {a} h = ground (arith, find_sound p xs {a = a})

find-and {ℓ} :
    {A : Type ℓ} (p q : A → Bool) (xs : List A) (a : A)
    → find p xs ≡ some a
    → q a ≡ true
    → find (λ x. p x && q x) xs ≡ some a
find-and p q [] a h k = cc
find-and p q (x ∷ xs) a h k = ground (arith, find-and p q xs a)

-- Where `GetRaw` answers for a request, `Get` succeeds for the app that owns it, and the payload of
-- the webhook is the JSON of the status that `Get` returns. It is assumed that the database does
-- not fail.
pub get-get_raw :
    (pg : Postgres) (marshal : Status → Result Bytes) (id : ℕ) (d : Db) (r : Request)
    → pg.failure Statement.select_status ≡ none
    → find (λ x. x.id == id) d.requests ≡ some r
    → (raw : Raw) → (get_raw pg marshal id d).0 ≡ ok raw
    → (get pg id r.app_id d ≡ (ok (scan r (last_attempt d r.id)), d))
      × (marshal (scan r (last_attempt d r.id)) ≡ ok raw.payload)
unfolding get get_raw
get-get_raw pg marshal id d r works found raw h =
    let own =
      find-and (λ x. x.id == id) (λ x. x.app_id == r.app_id) d.requests r found (ground arith) in
    (ground (arith, own), encoded)
  where
    encoded : marshal (scan r (last_attempt d r.id)) ≡ ok raw.payload
    encoded = elim (Option-cases (find (λ a. a.id == r.app_id) d.apps)) [
      | inl absent ↦ absurd (ground arith)
      | inr (app, there) ↦ elim (Result-cases (marshal (scan r (last_attempt d r.id)))) [
        | inl (e, failed) ↦ absurd (ground arith)
        | inr (body, done) ↦ ground arith
      ]
    ]

newest-none : (xs : List Attempt) (P : Attempt → Type 0) → newest xs ≡ none → All P xs
newest-none [] P h = tt
newest-none (y ∷ ys) P h = elim (Option-cases (newest ys)) [
  | inl e ↦ absurd (ground arith)
  | inr (b, e) ↦ absurd (ground arith)
]

-- The attempt that is shown is a latest one of the request.
pub newest_latest :
    (xs : List Attempt) (b : Attempt)
    → newest xs ≡ some b
    → All (λ a. a.submitted_at ≤ b.submitted_at) xs
newest_latest [] b h = tt
newest_latest (a ∷ xs) b h = elim (Option-cases (newest xs)) [
  | inl e ↦ (ground arith, newest-none xs (λ x. x.submitted_at ≤ b.submitted_at) e)
  | inr (c, e) ↦
      let bound : (a.submitted_at ≤ b.submitted_at) × (c.submitted_at ≤ b.submitted_at) =
        (ground arith, ground arith) in
      (
        bound.0,
        All-mono (λ x. x.submitted_at ≤ c.submitted_at) (λ x. x.submitted_at ≤ b.submitted_at) xs
            (λ x k. omega (arith, bound.1)) (newest_latest xs c e),
      )
]

find-Mem : (p : Request → Bool) (xs : List Request) (a : Request) → find p xs ≡ some a → Mem a xs
find-Mem p [] a h = absurd cc
find-Mem p (x ∷ xs) a h = elim (Bool-cases (p x)) [
  | inr skipped ↦ mem-cons_of_mem x (find-Mem p xs a (ground arith))
  | inl taken ↦ let same : x ≡ a = ground arith in subst (λ y. Mem y (x ∷ xs)) same mem-cons_self
]

logs_shown : (b : Option Bytes) → (non_empty b ≡ none) ⊎ (non_empty b ≡ b)
logs_shown none = inl refl
logs_shown (some []) = inl refl
logs_shown (some (c ∷ b)) = inr refl

scan_fields :
    (r : Request) (a : Option Attempt)
    → ((scan r a).request_id ≡ r.id)
      × ((scan r a).status ≡ r.status)
      × ((scan r a).callback_metadata ≡ or_empty r.callback_metadata)
      × ((scan r a).updated_at ≡ r.updated_at)
unfolding scan
scan_fields r none = (refl, refl, refl, refl)
scan_fields r (some a) = (refl, refl, refl, refl)

newest-Mem :
    (p : Attempt → Bool) (xs : List Attempt) (b : Attempt)
    → newest (select p xs) ≡ some b
    → Mem b xs × (p b ≡ true)
newest-Mem p [] b h = absurd cc
newest-Mem p (x ∷ xs) b h = elim (Bool-cases (p x)) [
  | inr skipped ↦
      let (there, hit) = newest-Mem p xs b (ground arith) in (mem-cons_of_mem x there, hit)
  | inl taken ↦ elim (Option-cases (newest (select p xs))) [
    | inl alone ↦
        let same : x ≡ b = ground arith in
        subst (λ y. Mem y (x ∷ xs) × (p y ≡ true)) same (mem-cons_self, taken)
    | inr (c, more) ↦
        let (there, hit) = newest-Mem p xs c more in
        elim (Bool-cases (leb x.submitted_at c.submitted_at)) [
          | inl later ↦
              let same : c ≡ b = ground arith in
              subst (λ y. Mem y (x ∷ xs) × (p y ≡ true)) same (mem-cons_of_mem x there, hit)
          | inr earlier ↦
              let same : x ≡ b = ground arith in
              subst (λ y. Mem y (x ∷ xs) × (p y ≡ true)) same (mem-cons_self, taken)
        ]
  ]
]

All-select :
    (p : Attempt → Bool) (Q : Attempt → Type 0) (xs : List Attempt)
    → All Q (select p xs)
    → All (λ a. p a ≡ true → Q a) xs
All-select p Q [] h = tt
All-select p Q (x ∷ xs) h = elim (Bool-cases (p x)) [
  | inr skipped ↦
      let same : select p (x ∷ xs) ≡ select p xs = ground arith in
      ((λ hit. absurd (ground arith)), All-select p Q xs (subst (All Q) same h))
  | inl taken ↦
      let same : select p (x ∷ xs) ≡ x ∷ select p xs = ground arith in
      let both : All Q (x ∷ select p xs) = subst (All Q) same h in
      ((λ hit. both.0), All-select p Q xs both.1)
]

newest_absent :
    (p : Attempt → Bool) (xs : List Attempt)
    → newest (select p xs) ≡ none
    → All (λ a. p a ≡ true → ⊥) xs
newest_absent p xs h = All-select p (λ a. ⊥) xs (newest-none (select p xs) (λ a. ⊥) h)

-- What the status shows of attempts: nothing, where the request has none, else one of the request's
-- own, and a latest of them.
abbrev pub ShowsLatest : Db → ℕ → Status → Type 0
ShowsLatest d id st =
    (All (λ a. a.request_id ≢ id) d.attempts
      × (st.tx_hash ≡ none)
      × (st.signer ≡ none)
      × (st.block_number ≡ none)
      × (st.gas_used ≡ none)
      × (st.effective_gas_price ≡ none)
      × (st.revert_reason ≡ [])
      × (st.logs ≡ none))
    ⊎ ((a : Attempt) × Mem a d.attempts
        × (a.request_id ≡ id)
        × All (λ b. b.request_id ≡ id → b.submitted_at ≤ a.submitted_at) d.attempts
        × (st.tx_hash ≡ some a.tx_hash)
        × (st.signer ≡ some a.signer_address)
        × (st.block_number ≡ a.block_number)
        × (st.gas_used ≡ a.gas_used)
        × (st.effective_gas_price ≡ a.effective_gas_price)
        × (st.revert_reason ≡ or_empty a.revert_reason)
        × ((st.logs ≡ none) ⊎ (st.logs ≡ a.logs)))

scan-ShowsLatest : (d : Db) (r : Request) → ShowsLatest d r.id (scan r (last_attempt d r.id))
unfolding scan
scan-ShowsLatest d r =
    let p = (λ (a : Attempt). a.request_id == r.id) in
    elim (Option-cases (last_attempt d r.id)) [
      | inl bare ↦ rw bare (
          inl (
            All-mono (λ a. p a ≡ true → ⊥) (λ a. a.request_id ≢ r.id) d.attempts
                (λ a k own. k (ground (arith, own))) (newest_absent p d.attempts bare),
            refl,
            refl,
            refl,
            refl,
            refl,
            refl,
            refl,
          ))
      | inr (a, latest) ↦
          let (there, hit) = newest-Mem p d.attempts a latest in
          rw latest (
            inr (
              a,
              there,
              ground (arith, hit),
              All-mono (λ b. p b ≡ true → b.submitted_at ≤ a.submitted_at)
                  (λ b. b.request_id ≡ r.id → b.submitted_at ≤ a.submitted_at) d.attempts
                  (λ b k own. k (ground (arith, own)))
                  (All-select p (λ b. b.submitted_at ≤ a.submitted_at) d.attempts
                    (newest_latest (select p d.attempts) a latest)),
              refl,
              refl,
              refl,
              refl,
              refl,
              refl,
              logs_shown a.logs,
            ))
    ]

-- `Get` answers only for a request of the calling app with the id that was asked for, and writes
-- nothing. The status, the metadata and the time are that request's; the transaction's fields are
-- absent where the request has no attempt, and otherwise are those of an attempt of this very
-- request, of which no other was submitted later.
pub get_owner :
    (pg : Postgres) (id app : ℕ) (d : Db) (st : Status)
    → (get pg id app d).0 ≡ ok st
    → (r : Request) × Mem r d.requests
      × (r.id ≡ id)
      × (r.app_id ≡ app)
      × (st.request_id ≡ id)
      × (st.status ≡ r.status)
      × (st.callback_metadata ≡ or_empty r.callback_metadata)
      × (st.updated_at ≡ r.updated_at)
      × ShowsLatest d id st
      × ((get pg id app d).1 ≡ d)
unfolding get
get_owner pg id app d st h =
    let p = (λ (x : Request). x.id == id && x.app_id == app) in
    elim (Option-cases (find p d.requests)) [
      | inl absent ↦ absurd (ground arith)
      | inr (r, found) ↦
          let hit = find_sound p d.requests found in
          let own : r.id ≡ id = ground (arith, hit) in
          let shown : scan r (last_attempt d r.id) ≡ st = ground arith in
          let fields = scan_fields r (last_attempt d r.id) in
          (
            r,
            find-Mem p d.requests r found,
            own,
            ground (arith, hit),
            ap (λ x. x.request_id) (sym shown) ∙ fields.0 ∙ own,
            ap (λ x. x.status) (sym shown) ∙ fields.1,
            ap (λ x. x.callback_metadata) (sym shown) ∙ fields.2,
            ap (λ x. x.updated_at) (sym shown) ∙ fields.3,
            subst (λ x. ShowsLatest d id x) shown
                (subst (λ n. ShowsLatest d n (scan r (last_attempt d r.id))) own
                  (scan-ShowsLatest d r)),
            ground arith,
          )
    ]
