-- ===== src/Relay/Nonces.antt =====
-- internal/relay/service.go: the nonces that a signer puts on the chain, over `Submit` calls that may
-- fail anywhere.
use txmill.Base.{
  ℕ, zero, suc, ◌+◌, ◌<◌, ◌^◌, ◌≡◌, refl, sym, ap, subst, ◌∙◌, true, List, [], ◌∷◌, ◌++◌, Option,
  some, Result, ok, arith, inl, inr, Bool-cases, if◌then◌else◌,
}
use txmill.Store.{Db}
use txmill.Signer.{Signer}
use txmill.Signer.Nonces.{counted_from}
use txmill.Signer.Pool.{Pool, SignerRef, deref, load, checkout}
use txmill.Signer.Cells.{same_ref, deref-load, deref-checkout, deref-release}
use txmill.Relay.Chain.{Signed, KeepsReplies}
use txmill.Relay.Service.{Service, SubmitInput, SubmitResult, Sent, World, relay_with, submit}
use txmill.Relay.Courses.{
  Course, invalid, not_inserted, not_loaded, waiting, not_lent, dangling, unreturned, relayed,
  submit-Course,
}
use txmill.Relay.Effects.{SignsIts, Effect, unsent, sent_one, relay_with-Effect}

-- The nonces of the accepted transactions of one signer, oldest first.
abbrev pub nonces_by : SignerRef → List Sent → List ℕ
nonces_by r [] = []
nonces_by r (x ∷ rest) =
    if same_ref x.by r then x.signed.tx.nonce ∷ nonces_by r rest else nonces_by r rest

-- Since its counter stood at `start` and nothing of it had been sent, the signer has sent exactly
-- the nonces start, start + 1, … in this order, and its counter is the next one.
pub record IsTracked (r : SignerRef) (start : ℕ) (w : World) : Type 0 where
  pub signer : Signer
  pub count : ℕ
  pub held : deref w.pool r ≡ some signer
  pub next : signer.nonce ≡ start + count
  pub sent : nonces_by r w.sent ≡ counted_from count start

pub nonces_by-append :
    (r : SignerRef) (xs : List Sent) (x : Sent)
    → nonces_by r (xs ++ x ∷ [])
      ≡ (if same_ref x.by r then nonces_by r xs ++ x.signed.tx.nonce ∷ [] else nonces_by r xs)
nonces_by-append r [] x = ground arith
nonces_by-append r (y ∷ xs) x = ground (arith, nonces_by-append r xs x)

counted_from-append : (k n : ℕ) → counted_from k n ++ (n + k) ∷ [] ≡ counted_from (suc k) n
counted_from-append zero n = ground arith
counted_from-append (suc k) n = ground (arith, counted_from-append k (n + 1))

pub same_ref-eq : (r s : SignerRef) → same_ref r s ≡ true → r ≡ s
same_ref-eq r s e = ground arith

quiet-IsTracked :
    (r : SignerRef) (start : ℕ) (w w' : World)
    → w'.sent ≡ w.sent
    → deref w'.pool r ≡ deref w.pool r
    → IsTracked r start w
    → IsTracked r start w'
quiet-IsTracked r start w w' e d t = record {
  signer = t.signer;
  count = t.count;
  held = d ∙ t.held;
  next = t.next;
  sent = ap (nonces_by r) e ∙ t.sent;
}

own-IsTracked :
    (r ref : SignerRef) (start : ℕ) (sig : Signer) (w w' : World)
    → deref w.pool ref ≡ some sig
    → (x : Signed) → x.tx.nonce ≡ sig.nonce
    → w'.sent ≡ w.sent ++ record { by = ref; signed = x } ∷ []
    → deref w'.pool ref ≡ some (record sig { nonce = sig.nonce + 1 })
    → ref ≡ r
    → IsTracked r start w
    → IsTracked r start w'
own-IsTracked r ref start sig w w' h x n e moved same t =
    let held : deref w.pool r ≡ some sig = subst (λ q. deref w.pool q ≡ some sig) same h in
    let own : t.signer ≡ sig = ground (arith, held, t.held) in
    let tested : same_ref ref r ≡ true = ground (arith, same) in
    let all = counted_from-append t.count start in
    record {
      signer = record sig { nonce = sig.nonce + 1 };
      count = suc t.count;
      held = subst (λ q. deref w'.pool q ≡ some (record sig { nonce = sig.nonce + 1 })) same moved;
      next = omega (arith, ap (λ v. v.nonce) own, t.next);
      sent =
          ap (nonces_by r) e
          ∙ ground (
            arith,
            nonces_by-append r w.sent (record { by = ref; signed = x }),
            tested,
            t.sent,
            t.next,
            own,
            n,
            all,
          );
    }

Effect-IsTracked :
    (r ref : SignerRef) (start : ℕ) (sig : Signer) (w w' : World)
    → deref w.pool ref ≡ some sig
    → Effect ref sig w w'
    → IsTracked r start w
    → IsTracked r start w'
Effect-IsTracked r ref start sig w w' h (unsent e kept others) t =
    elim (Bool-cases (same_ref ref r)) [
      | inl same ↦
          quiet-IsTracked r start w w' e
            (subst (λ q. deref w'.pool q ≡ deref w.pool q) (same_ref-eq ref r same) (kept ∙ sym h))
            t
      | inr other ↦ quiet-IsTracked r start w w' e (others r other) t
    ]
Effect-IsTracked r ref start sig w w' h (sent_one x n e moved others) t =
    elim (Bool-cases (same_ref ref r)) [
      | inl same ↦ own-IsTracked r ref start sig w w' h x n e moved (same_ref-eq ref r same) t
      | inr other ↦ record {
        signer = t.signer;
        count = t.count;
        held = others r other ∙ t.held;
        next = t.next;
        sent =
            ap (nonces_by r) e
            ∙ ground (arith, nonces_by-append r w.sent (record { by = ref; signed = x }), t.sent);
      }
    ]

module _ (r : SignerRef) (start : ℕ) (s : Service) (i : SubmitInput) (w : World)
    (signs : SignsIts s.sign_tx) (keeps : KeepsReplies s.chain) where
  -- No signer that is in memory once the app is loaded is about to wrap its nonce.
  abbrev HasRoom : Type 0
  HasRoom =
      (ref : SignerRef) (sig : Signer)
      → deref (load s.backends w.pool i.app_id).1 ref ≡ some sig
      → sig.nonce + 1 < 2 ^ 64

  relayed-IsTracked :
      (d : Db) (ref : SignerRef) (q : Pool) (sig : Signer) (request : ℕ)
      → HasRoom
      → checkout (load s.backends w.pool i.app_id).1 i.app_id s.cancelled ≡ some (ok ref, q)
      → deref q ref ≡ some sig
      → IsTracked r start w
      → IsTracked r start (relay_with s i ref sig request (record w { db = d; pool = q })).1
  relayed-IsTracked d ref q sig request room taken held t =
      let p = (load s.backends w.pool i.app_id).1 in
      let before = record w { db = d; pool = q } in
      let same = deref-checkout p q i.app_id s.cancelled ref taken in
      Effect-IsTracked r ref start sig before _ held
        (relay_with-Effect ref sig before held (room ref sig (sym same ∙ held)) s i request signs
          keeps)
        (quiet-IsTracked r start w before refl
          (deref-checkout p q i.app_id s.cancelled r taken
            ∙ deref-load s.backends w.pool i.app_id r t.held
            ∙ sym t.held)
          t)

  -- The signer is untouched until one is checked out.
  unheld-IsTracked :
      (w' : World)
      → w'.sent ≡ w.sent
      → deref w'.pool r ≡ deref (load s.backends w.pool i.app_id).1 r
      → IsTracked r start w
      → IsTracked r start w'
  unheld-IsTracked w' e d t =
      quiet-IsTracked r start w w' e
        (d ∙ deref-load s.backends w.pool i.app_id r t.held ∙ sym t.held) t

  Course-IsTracked :
      (o : Option (Result SubmitResult)) (w' : World)
      → HasRoom
      → Course s i w o w'
      → IsTracked r start w
      → IsTracked r start w'
  Course-IsTracked o w' room (invalid e v _ d) t = rw d t
  Course-IsTracked o w' room (not_inserted e v n _ d) t =
      rw d (quiet-IsTracked r start w _ refl refl t)
  Course-IsTracked o w' room (not_loaded id e v n l _ d) t = rw d (unheld-IsTracked _ refl refl t)
  Course-IsTracked o w' room (waiting id v n l c _ d) t = rw d (unheld-IsTracked _ refl refl t)
  Course-IsTracked o w' room (not_lent id e q v n l c _ d) t =
      rw d (unheld-IsTracked _ refl (deref-checkout _ q i.app_id s.cancelled r c) t)
  Course-IsTracked o w' room (dangling id ref q v n l c _ _ d) t =
      rw d (unheld-IsTracked _ refl (deref-checkout _ q i.app_id s.cancelled r c) t)
  Course-IsTracked o w' room (unreturned id ref q sig v n l c h b _ d) t =
      rw d (relayed-IsTracked _ ref q sig id room c h t)
  Course-IsTracked o w' room (relayed id ref q sig p v n l c h b _ d) t = rw d (
      quiet-IsTracked r start _ _ refl (deref-release _ p ref r b)
        (relayed-IsTracked _ ref q sig id room c h t))

  -- Whatever a call of `Submit` meets (a refused input, an error of the database, the pool, the
  -- node or the signing library, a context that ends), each signer that was in memory has still
  -- sent exactly the consecutive nonces from `start` and holds the next one: no nonce is skipped
  -- and none is sent twice. It is assumed that the signing library signs what it is given, that an
  -- error of `SendTransaction` means that the node has not taken the transaction, and that no counter
  -- is about to wrap.
  pub submit-IsTracked : HasRoom → IsTracked r start w → IsTracked r start (submit s i w).1
  submit-IsTracked room t = Course-IsTracked _ _ room (submit-Course s i w) t

-- A history of calls, each with the surroundings that it met.
pub run : List (Service × SubmitInput) → World → World
run [] w = w
run ((s, i) ∷ rest) w = run rest (submit s i w).1

abbrev pub Fits : List (Service × SubmitInput) → World → Type 0
Fits [] w = Unit
Fits ((s, i) ∷ rest) w =
    SignsIts s.sign_tx
    × KeepsReplies s.chain
    × ((ref : SignerRef) (sig : Signer)
        → deref (load s.backends w.pool i.app_id).1 ref ≡ some sig
        → sig.nonce + 1 < 2 ^ 64)
    × Fits rest (submit s i w).1

-- Over any history of calls of `Submit`, each with its own surroundings, a signer in memory that has
-- sent the consecutive nonces from `start`, and holds the next one, goes on doing so: none is skipped
-- and none is sent twice. It is assumed that at each call the signing library signs what it is given,
-- an error of `SendTransaction` means that the node has not taken the transaction, and no counter is
-- about to wrap.
pub run-IsTracked :
    (r : SignerRef) (start : ℕ) (calls : List (Service × SubmitInput)) (w : World)
    → Fits calls w
    → IsTracked r start w
    → IsTracked r start (run calls w)
unfolding run
run-IsTracked r start [] w f t = t
run-IsTracked r start ((s, i) ∷ rest) w (signs, keeps, room, f) t =
    run-IsTracked r start rest (submit s i w).1 f
      (submit-IsTracked r start s i w signs keeps room t)
