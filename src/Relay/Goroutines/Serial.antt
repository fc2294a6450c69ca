-- ===== src/Relay/Goroutines/Serial.antt =====
-- internal/relay/service.go: the nonces that a signer puts on the chain, whatever goroutines do at once.
use txmill.Base.{
  ℕ, ◌+◌, ◌%◌, ◌^◌, ◌≤◌, ◌≡◌, refl, sym, ap, subst, ◌∙◌, inl, List, [], ◌∷◌, some, arith, All,
  lookup,
}
use txmill.Store.{Db}
use txmill.Signer.{Signer}
use txmill.Signer.Pool.{SignerRef, deref, new_pool}
use txmill.Relay.Chain.{KeepsReplies}
use txmill.Relay.Service.{Service, SubmitInput, World}
use txmill.Relay.Effects.{SignsIts}
use txmill.Relay.Nonces.{nonces_by}
use txmill.Relay.Goroutines.{
  Goroutine, System, Step, arrives, runs, elsewhere, Reach, here, next, started, entering,
}
use txmill.Relay.Goroutines.Handling.{Step-IsLawful, IsLawful}
use txmill.Relay.Goroutines.Moves.{Meets}
use txmill.Relay.Goroutines.Advances.{Meets_same, advance-Move, advance-Meets}
use txmill.Relay.Goroutines.Counting.{
  reservations, wrapped_from, IsLawful-reservations, All-replace, All-middle,
}
use txmill.Relay.Goroutines.Order.{IsSerial, unseen, serial, fresh-IsSerial, move-IsSerial}

System-eq :
    {w w' : World} {gs gs' : List Goroutine}
    → w ≡ w'
    → gs ≡ gs'
    → ◌≡◌ {A = System} (record { world = w; running = gs }) (record { world = w'; running = gs' })
System-eq e f i = record { world = e i; running = f i }

-- What holds of every reachable system, for one signer.
record Invariant (P : Service → Type 0) (r : SignerRef) (a : System) : Type 0 where
  lawful : IsLawful P r.app_id a
  meets : All (Meets P) a.running
  nonces : IsSerial r a

module _ (P : Service → Type 0) (r : SignerRef)
    (faithful : (s : Service) → P s → SignsIts s.sign_tx × KeepsReplies s.chain) where
  Step-Meets : {a b : System} → Step P a b → All (Meets P) a.running → All (Meets P) b.running
  Step-Meets (arrives s i u same more) h =
      subst (All (Meets P)) (sym more) (λ f e. Meets_same P s f u (ground arith), h)
  Step-Meets (elsewhere d same still) h = subst (All (Meets P)) (sym still) h
  Step-Meets {a} {b} (runs before after g g' was moved is) h = subst (All (Meets P)) (sym is) (
      All-replace (Meets P) g g' before after (λ u. advance-Meets P g g' a.world b.world u moved)
        (subst (All (Meets P)) was h))

  arrival-IsSerial :
      (s : Service) (i : SubmitInput) (a : System)
      → IsSerial r a
      → IsSerial r (record { world = a.world; running = entering s i ∷ a.running })
  arrival-IsSerial s i a (unseen l n x) = unseen l (omega (arith, n)) x
  arrival-IsSerial s i a (serial start count sig l n x stamped) =
      serial start count sig l (n ∙ ap (λ k. (start + count + k) % 2 ^ 64) (omega arith)) x
        (tt, stamped)

  database-IsSerial :
      (d : Db) (a : System)
      → IsSerial r a
      → IsSerial r (record { world = record a.world { db = d }; running = a.running })
  database-IsSerial d a (unseen l n x) = unseen l n x
  database-IsSerial d a (serial start count sig l n x stamped) =
      serial start count sig l n x stamped

  Step-Invariant : {a b : System} → Step P a b → Invariant P r a → Invariant P r b
  Step-Invariant {a} {b} (arrives s i u same more) h =
      let st : Step P a b = arrives s i u same more in
      record {
        lawful = Step-IsLawful P r.app_id st h.lawful;
        meets = Step-Meets st h.meets;
        nonces =
            subst (λ x. IsSerial r x) (System-eq (sym same) (sym more))
              (arrival-IsSerial s i a h.nonces);
      }
  Step-Invariant {a} {b} (elsewhere d same still) h =
      let st : Step P a b = elsewhere d same still in
      record {
        lawful = Step-IsLawful P r.app_id st h.lawful;
        meets = Step-Meets st h.meets;
        nonces =
            subst (IsSerial r) (System-eq (sym same) (sym still)) (database-IsSerial d a h.nonces);
      }
  Step-Invariant {a} {b} (runs before after g g' was moved is) h =
      let st : Step P a b = runs before after g g' was moved is in
      let after_it = Step-IsLawful P r.app_id st h.lawful in
      let u = All-middle (Meets P) g before after (subst (All (Meets P)) was h.meets) in
      let m = advance-Move r P faithful g g' a.world b.world u moved in
      let old = subst (IsSerial r) (System-eq refl was) h.nonces in
      record {
        lawful = after_it;
        meets = Step-Meets st h.meets;
        nonces = subst (IsSerial r) (System-eq refl (sym is)) (
            move-IsSerial r before after g g' a.world b.world
              (subst (λ gs. reservations r gs ≤ 1) was (IsLawful-reservations P r a h.lawful))
              (subst (λ gs. reservations r gs ≤ 1) is (IsLawful-reservations P r b after_it)) m
              old);
      }

  Reach-Invariant : {a b : System} → Reach P a b → Invariant P r a → Invariant P r b
  Reach-Invariant here h = h
  Reach-Invariant (next t st) h = Step-Invariant st (Reach-Invariant t h)

-- What a signer in memory has sent, in terms of some nonce that it started at.
abbrev pub InOrder : SignerRef → Signer → System → Type 0
InOrder r sig a =
    (start count : ℕ) × (nonces_by r a.world.sent ≡ wrapped_from count start)
    × (sig.nonce % 2 ^ 64 ≡ (start + count + reservations r a.running) % 2 ^ 64)
    × (reservations r a.running ≤ 1)

IsSerial-InOrder :
    (P : Service → Type 0) (r : SignerRef) (a : System) (sig : Signer)
    → Invariant P r a
    → deref a.world.pool r ≡ some sig
    → InOrder r sig a
IsSerial-InOrder P r a sig h l = from h.nonces
  where
    from : IsSerial r a → InOrder r sig a
    from (unseen x n e) = cc
    from (serial start count v x n e stamped) =
        let same : v ≡ sig = ground (arith, x, l) in
        (
          start,
          count,
          e,
          ap (λ y. y.nonce % 2 ^ 64) (sym same) ∙ n,
          IsLawful-reservations P r a h.lawful,
        )

-- Whatever calls of `Submit` come in and however their goroutines interleave, from an empty pool on,
-- whatever errors they meet and whatever other parts of the process do to the database meanwhile:
-- each signer in memory that had sent nothing before has sent nonces start, start + 1, … (as a uint64
-- counts) from some start, none skipped and none twice, at most one goroutine has a nonce of it
-- reserved, and its counter is past the sent and the reserved ones. It is assumed, of every call, that
-- the signing library signs what it is given and that an error of `SendTransaction` means that the node
-- has not taken the transaction.
pub goroutines-InOrder :
    (P : Service → Type 0) (r : SignerRef) (w : World) (b : System) (sig : Signer)
    → ((s : Service) → P s → SignsIts s.sign_tx × KeepsReplies s.chain)
    → w.pool ≡ new_pool
    → nonces_by r w.sent ≡ []
    → Reach P (started w) b
    → deref b.world.pool r ≡ some sig
    → InOrder r sig b
unfolding new_pool
goroutines-InOrder P r w b sig faithful empty nothing reach held =
    let first : Invariant P r (started w) = record {
      lawful = inl (ap (lookup r.app_id) empty, refl);
      meets = tt;
      nonces = fresh-IsSerial r (started w) refl nothing;
    } in
    IsSerial-InOrder P r b sig (Reach-Invariant P r faithful reach first) held
