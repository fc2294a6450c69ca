-- ===== src/Relay/Shape.antt =====
-- internal/relay/service.go and internal/signer/pool.go: what a call of `Submit` does to the idle
-- signers of an app.
use txmill.Base.{
  ℕ, zero, suc, ◌≢◌, ◌≡◌, ◌<◌, inl, inr, refl, sym, ap, subst, ◌∙◌, List, [], ◌∷◌, ◌++◌, none, some,
  ok, err, Error, arith, length, length-set, lookup, insert, lookup-insert, get_elem?, set, ◌==◌,
  Option-cases, Result-cases, Bool-cases,
}
use txmill.Signer.{Signer, use_nonce, rewind_nonce}
use txmill.Signer.Pool.{
  Pool, AppPool, SignerRef, Backends, load, checkout, release, deref, store, fetch,
}
use txmill.Relay.Chain.{Signed}
use txmill.Relay.Service.{
  Service, SubmitInput, World, insert_attempt, relay_with, sign_and_send, record_attempt, broadcast,
  gas_limit_for, transaction_for, write_signer,
}

-- The idle signers of an app, and how many signers it has.
abbrev pub Shape : ℕ → List ℕ → ℕ → Pool → Type 0
Shape app idle n p =
    (entry : AppPool) × (lookup app p ≡ some entry)
    × (entry.idle ≡ idle)
    × (length entry.signers ≡ n)

store-Shape :
    (app : ℕ) (idle : List ℕ) (n : ℕ) (p : Pool) (ref : SignerRef) (v : Signer)
    → Shape app idle n p
    → Shape app idle n (store p ref v)
unfolding store
store-Shape app idle n p ref v (entry, there, is, size) =
    elim (Option-cases (lookup ref.app_id p)) [
      | inl absent ↦ (entry, ground arith, is, size)
      | inr (x, found) ↦ elim (Bool-cases (ref.app_id == app)) [
        | inl same ↦
            let after = record x { signers = set x.signers ref.index v } in
            let one : x ≡ entry = ground (arith, same, found, there) in
            (
              after,
              ground (arith, same, found, lookup-insert app ref.app_id after p),
              ap (λ y. y.idle) one ∙ is,
              length-set x.signers ref.index v ∙ ap (λ y. length y.signers) one ∙ size,
            )
        | inr other ↦ (
          entry,
          ground (
            arith,
            lookup-insert app ref.app_id (record x { signers = set x.signers ref.index v }) p,
          ),
          is,
          size,
        )
      ]
    ]

module _ (s : Service) (app : ℕ) (idle : List ℕ) (n id : ℕ) (ref : SignerRef) where
  abbrev pub Keeps : World → Type 0
  Keeps w = Shape app idle n w.pool

  same-Shape : (p p' : Pool) → p' ≡ p → Shape app idle n p → Shape app idle n p'
  same-Shape p p' e h = subst (Shape app idle n) (sym e) h

  broadcast-Shape :
      (sig : Signer) (x : Signed) (attempt : ℕ) (w : World)
      → Keeps w
      → Keeps (broadcast s ref sig x id attempt w).1
  unfolding broadcast
  broadcast-Shape sig x attempt w h =
      let w' = (broadcast s ref sig x id attempt w).1 in
      elim (Option-cases (s.chain.send_transaction x)) [
        | inr (e, refused) ↦
            same-Shape (store w.pool ref (rewind_nonce sig)) w'.pool (ground arith)
              (store-Shape app idle n w.pool ref (rewind_nonce sig) h)
        | inl accepted ↦ same-Shape w.pool w'.pool (ground arith) h
      ]

  record_attempt-Shape :
      (sig : Signer) (x : Signed) (nonce price : ℕ) (w : World)
      → Keeps w
      → Keeps (record_attempt s ref sig x nonce price id w).1
  unfolding record_attempt
  record_attempt-Shape sig x nonce price w h =
      let row = insert_attempt s.pg id sig.address nonce x.hash price w.db in
      let w' = (record_attempt s ref sig x nonce price id w).1 in
      elim (Result-cases row.0) [
        | inl (e, failed) ↦
            same-Shape (store w.pool ref (rewind_nonce sig)) w'.pool (ground arith)
              (store-Shape app idle n w.pool ref (rewind_nonce sig) h)
        | inr (attempt, stored) ↦
            let there = record w { db = row.1 } in
            same-Shape (broadcast s ref sig x id attempt there).1.pool w'.pool (ground arith)
              (broadcast-Shape sig x attempt there h)
      ]

  sign_and_send-Shape :
      (i : SubmitInput) (sig : Signer) (gas price : ℕ) (w : World)
      → Keeps w
      → Keeps (sign_and_send s i ref sig gas price id w).1
  unfolding sign_and_send
  sign_and_send-Shape i sig gas price w h =
      let sig' = (use_nonce sig).1 in
      let nonce = (use_nonce sig).0 in
      let there = write_signer ref sig' w in
      let held = store-Shape app idle n w.pool ref sig' h in
      let w' = (sign_and_send s i ref sig gas price id w).1 in
      elim (Result-cases (s.sign_tx s.chain.chain_id (transaction_for i nonce gas price) sig.key)) [
        | inl (e, failed) ↦
            same-Shape (store there.pool ref (rewind_nonce sig')) w'.pool (ground arith)
              (store-Shape app idle n there.pool ref (rewind_nonce sig') held)
        | inr (x, signed) ↦
            same-Shape (record_attempt s ref sig' x nonce price id there).1.pool w'.pool
              (ground arith) (record_attempt-Shape sig' x nonce price there held)
      ]

  pub relay_with-Shape :
      (i : SubmitInput) (sig : Signer) (w : World) → Keeps w → Keeps (relay_with s i ref sig id w).1
  unfolding relay_with
  relay_with-Shape i sig w h =
      let w' = (relay_with s i ref sig id w).1 in
      elim (Result-cases (gas_limit_for s sig i)) [
        | inl (e, failed) ↦ same-Shape w.pool w'.pool (ground arith) h
        | inr (gas, limited) ↦ elim (Result-cases s.chain.suggest_gas_price) [
          | inl (e, failed) ↦ same-Shape w.pool w'.pool (ground arith) h
          | inr (price, priced) ↦
              same-Shape (sign_and_send s i ref sig gas price id w).1.pool w'.pool (ground arith)
                (sign_and_send-Shape i sig gas price w h)
        ]
      ]

module _ (app j : ℕ) (rest : List ℕ) (p : Pool) (entry : AppPool)
    (there : lookup app p ≡ some entry) (is : entry.idle ≡ j ∷ rest) where
  abbrev pub lent : Pool
  lent = insert app (record entry { idle = rest }) p

  pub checkout_idle : checkout p app none ≡ some (ok (record { app_id = app; index = j }), lent)
  unfolding checkout
  checkout_idle = ground arith

  pub lent-Shape : Shape app rest (length entry.signers) lent
  lent-Shape =
      let e : AppPool = record entry { idle = rest } in
      (e, ground (arith, lookup-insert app app e p), refl, refl)

get_elem?-some :
    (xs : List Signer) (j : ℕ) → j < length xs → (v : Signer) × (get_elem? xs j ≡ some v)
get_elem?-some [] j h = absurd (omega arith)
get_elem?-some (x ∷ xs) zero h = (x, refl)
get_elem?-some (x ∷ xs) (suc j) h = get_elem?-some xs j (omega arith)

pub deref-Shape :
    (app j n : ℕ) (idle : List ℕ) (p : Pool)
    → Shape app idle n p
    → j < n
    → deref p (record { app_id = app; index = j }) ≢ none
unfolding deref
deref-Shape app j n idle p (entry, there, is, size) h e =
    let (v, found) = get_elem?-some entry.signers j (ground (arith, size)) in
    absurd (ground (arith, found))

pub release-Shape :
    (app j n : ℕ) (idle : List ℕ) (p : Pool)
    → Shape app idle n p
    → length idle < n
    → (p' : Pool) × (release p (record { app_id = app; index = j }) ≡ some p')
      × Shape app (idle ++ j ∷ []) n p'
unfolding release
release-Shape app j n idle p (entry, there, is, size) h =
    let e : AppPool = record entry { idle = entry.idle ++ j ∷ [] } in
    (
      insert app e p,
      ground (arith, is, size),
      (e, ground (arith, lookup-insert app app e p), ap (λ xs. xs ++ j ∷ []) is, size),
    )

pub load_failed :
    (b : Backends) (p : Pool) (app : ℕ) (e : Error)
    → (load b p app).0 ≡ err e
    → (load b p app).1 ≡ p
unfolding load
load_failed b p app e h = elim (Option-cases (lookup app p)) [
  | inr (x, there) ↦ absurd (ground arith)
  | inl absent ↦ elim (Result-cases (fetch b app)) [
    | inl (e', fails) ↦ ground arith
    | inr (signers, done) ↦ absurd (ground arith)
  ]
]
