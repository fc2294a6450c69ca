-- ===== src/Relay/Returns.antt =====
-- internal/relay/service.go: a call of `Submit` that finds an idle signer ends, and gives the signer
-- back.
use txmill.Base.{
  ℕ, ◌≡◌, ◌<◌, ◌≤◌, ◌⊎◌, inl, inr, sym, ap, subst, ◌∙◌, List, [], ◌∷◌, ◌++◌, Option, none, some,
  Result, ok, err, arith, length, lookup,
}
use txmill.Signer.{Signer}
use txmill.Signer.Pool.{Pool, AppPool, SignerRef, load, release, deref}
use txmill.Relay.Service.{Service, SubmitInput, SubmitResult, World, relay_with, submit}
use txmill.Relay.Courses.{
  Course, invalid, not_inserted, not_loaded, waiting, not_lent, dangling, unreturned, relayed,
  holding, ready, submit-Course,
}
use txmill.Relay.Shape.{
  Shape, relay_with-Shape, lent, checkout_idle, lent-Shape, deref-Shape, release-Shape, load_failed,
}

module _ (s : Service) (i : SubmitInput) (w : World) (j : ℕ) (rest : List ℕ) (entry : AppPool)
    (there : lookup i.app_id (load s.backends w.pool i.app_id).1 ≡ some entry)
    (is : entry.idle ≡ j ∷ rest) (valid : j < length entry.signers)
    (fits : length entry.idle ≤ length entry.signers) (live : s.cancelled ≡ none) where
  abbrev app : ℕ
  app = i.app_id

  abbrev p : Pool
  p = (load s.backends w.pool i.app_id).1

  abbrev mine : SignerRef
  mine = record { app_id = app; index = j }

  abbrev taken : Pool
  taken = lent app j rest p entry there is

  gets_mine : ready s i w ≡ some (ok mine, taken)
  gets_mine = rw live (checkout_idle app j rest p entry there is)

  taken_ref :
      (ref : SignerRef) (q : Pool) → ready s i w ≡ some (ok ref, q) → (ref ≡ mine) × (q ≡ taken)
  taken_ref ref q c = (ground (arith, gets_mine, c), ground (arith, gets_mine, c))

  taken-Shape : (q : Pool) → q ≡ taken → Shape app rest (length entry.signers) q
  taken-Shape q e =
      subst (Shape app rest (length entry.signers)) (sym e) (lent-Shape app j rest p entry there is)

  room : length rest < length entry.signers
  room = omega (arith, fits, ap length is)

  -- The call has ended, and the pool is as it was, or the signer that was lent is idle again.
  abbrev Ends : Option (Result SubmitResult) → World → Type 0
  Ends o w' =
      (r : Result SubmitResult) × (o ≡ some r)
      × ((w'.pool ≡ w.pool) ⊎ Shape app (rest ++ j ∷ []) (length entry.signers) w'.pool)

  released :
      (id : ℕ) (ref : SignerRef) (q : Pool) (sig : Signer)
      → ready s i w ≡ some (ok ref, q)
      → (p' : Pool) × (release (relay_with s i ref sig id (holding s i w q)).1.pool ref ≡ some p')
        × Shape app (rest ++ j ∷ []) (length entry.signers) p'
  released id ref q sig c =
      let (own, held) = taken_ref ref q c in
      let after = (relay_with s i ref sig id (holding s i w q)).1.pool in
      let shape =
        relay_with-Shape s app rest (length entry.signers) id ref i sig (holding s i w q)
          (taken-Shape q held) in
      let (p', done, back) = release-Shape app j (length entry.signers) rest after shape room in
      (p', ap (release after) own ∙ done, back)

  Course-Ends : (o : Option (Result SubmitResult)) (w' : World) → Course s i w o w' → Ends o w'
  Course-Ends o w' (invalid e v x d) = (err e, x, inl (ap (λ y. y.pool) d))
  Course-Ends o w' (not_inserted e v n x d) = (_, x, inl (ap (λ y. y.pool) d))
  Course-Ends o w' (not_loaded id e v n l x d) =
      (_, x, inl (ap (λ y. y.pool) d ∙ load_failed s.backends w.pool i.app_id e l))
  Course-Ends o w' (waiting id v n l c x d) = absurd (ground (arith, gets_mine, c))
  Course-Ends o w' (not_lent id e q v n l c x d) = absurd (ground (arith, gets_mine, c))
  Course-Ends o w' (dangling id ref q v n l c k x d) =
      let (own, held) = taken_ref ref q c in
      absurd (
        deref-Shape app j (length entry.signers) rest q (taken-Shape q held) valid
          (ap (deref q) (sym own) ∙ k))
  Course-Ends o w' (unreturned id ref q sig v n l c k b x d) =
      let (p', done, back) = released id ref q sig c in absurd (ground (arith, done, b))
  Course-Ends o w' (relayed id ref q sig p' v n l c k b x d) =
      let (p'', done, back) = released id ref q sig c in
      let same : p'' ≡ w'.pool = ground (arith, done, b, d) in
      (_, x, inr (subst (Shape app (rest ++ j ∷ []) (length entry.signers)) same back))

  -- A call of `Submit` that finds an idle signer for its app always ends, with a result or an error,
  -- and leaves the pool as it was or the signer that it borrowed idle again, behind the others: on
  -- no path is a signer lost. It is assumed that the idle signer is one of the app's, that the channel
  -- holds no more than its capacity, and that the context is not cancelled while a signer is idle.
  pub submit_returns :
      (r : Result SubmitResult) × ((submit s i w).0 ≡ some r)
      × (((submit s i w).1.pool ≡ w.pool)
          ⊎ Shape i.app_id (rest ++ j ∷ []) (length entry.signers) (submit s i w).1.pool)
  submit_returns = Course-Ends _ _ (submit-Course s i w)
