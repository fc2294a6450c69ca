-- ===== src/Signer/Sharing.antt =====
-- How goroutines share one app's signers through internal/signer/pool.go: every interleaving of
-- `Load`, `Checkout`, `Release` and the nonce methods.
use mathlib.Core.List.{Mem, Nodup, Perm, append-nil, Nodup-cons, mem-append_right}
use mathlib.Core.List.Perm
use txmill.Base.{
  ℕ, ◌≡◌, ◌≢◌, refl, ap, subst, ◌∙◌, List, [], ◌∷◌, ◌++◌, Option, none, some, Result, ok, err,
  Error, arith, lookup,
}
use txmill.Signer.{Signer}
use txmill.Signer.Pool.{
  AppPool, Pool, SignerRef, Backends, positions_from, fresh_pool, fetch, load, install, checkout,
  release, store,
}
use txmill.Signer.Lending.{
  IsShared, keep-IsShared, checkout-elsewhere, release-elsewhere, load-lookup, checkout_taken,
  checkout-IsShared, release-IsShared, store-IsShared, checkout_refused, positions_from-Nodup,
  lookup-insert_self,
}

-- The pool beside the positions of the signers of the app that callers hold.
pub record Shared : Type 0 where
  pub pool : Pool
  pub out : List ℕ

-- One atomic step of some goroutine: a checkout for this app or another that succeeds or fails,
-- a release by a holder, a write to a signer, a load of any app.
pub data Step (app : ℕ) (s t : Shared) : Type 0 where
  lent :
      (c : Option Error) (r : SignerRef)
      → checkout s.pool app c ≡ some (ok r, t.pool)
      → t.out ≡ r.index ∷ s.out
      → Step app s t
  refused :
      (c : Option Error) (e : Error)
      → checkout s.pool app c ≡ some (err e, t.pool)
      → t.out ≡ s.out
      → Step app s t
  lent_elsewhere :
      (a : ℕ) (c : Option Error) (r : Result SignerRef)
      → a ≢ app
      → checkout s.pool a c ≡ some (r, t.pool)
      → t.out ≡ s.out
      → Step app s t
  returned :
      (i : ℕ)
      → Perm s.out (i ∷ t.out)
      → release s.pool (record { app_id = app; index = i }) ≡ some t.pool
      → Step app s t
  returned_elsewhere :
      (r : SignerRef)
      → r.app_id ≢ app
      → release s.pool r ≡ some t.pool
      → t.out ≡ s.out
      → Step app s t
  written : (r : SignerRef) (v : Signer) → t.pool ≡ store s.pool r v → t.out ≡ s.out → Step app s t
  loaded : (b : Backends) (a : ℕ) → t.pool ≡ (load b s.pool a).1 → t.out ≡ s.out → Step app s t

pub data Reach (app : ℕ) (s : Shared) : Shared → Type 0 where
  here : Reach app s s
  next : {t u : Shared} → Reach app s t → Step app t u → Reach app s u

Step-IsShared :
    (app : ℕ) {s t : Shared} → Step app s t → IsShared app s.out s.pool → IsShared app t.out t.pool
Step-IsShared app {s} {t} (lent c r e o) h =
    rw o (checkout-IsShared app s.out s.pool t.pool c r h e)
Step-IsShared app {s} {t} (refused c x e o) h = rw (o, checkout_refused app s.pool t.pool c e) h
Step-IsShared app {s} {t} (lent_elsewhere a c r ne e o) h =
    rw o (keep-IsShared app s.out s.pool t.pool (checkout-elsewhere app a s.pool t.pool c ne e) h)
Step-IsShared app {s} {t} (returned i split e) h =
    let (q, released, after) = release-IsShared app i s.out t.out s.pool h split in
    subst (IsShared app t.out) (ground (arith, released, e)) after
Step-IsShared app {s} {t} (returned_elsewhere r ne e o) h =
    rw o (keep-IsShared app s.out s.pool t.pool (release-elsewhere app r s.pool t.pool ne e) h)
Step-IsShared app {s} {t} (written r v e o) h = rw (o, e) (store-IsShared app s.out s.pool r v h)
Step-IsShared app {s} {t} (loaded b a e o) (apool, l, perm) = rw o (
    keep-IsShared app s.out s.pool t.pool (ap (lookup app) e ∙ load-lookup app a b s.pool l)
      (apool, l, perm))

Reach-IsShared :
    (app : ℕ) {s t : Shared} → Reach app s t → IsShared app s.out s.pool → IsShared app t.out t.pool
Reach-IsShared app here h = h
Reach-IsShared app (next r st) h = Step-IsShared app st (Reach-IsShared app r h)

load-IsShared :
    (app : ℕ) (b : Backends) (p : Pool)
    → lookup app p ≡ none
    → (load b p app).0 ≡ ok tt
    → IsShared app [] (load b p app).1
unfolding load install
load-IsShared app b p absent done = from_fetch (fetch b app) refl
  where
    from_fetch : (r : Result (List Signer)) → fetch b app ≡ r → IsShared app [] (load b p app).1
    from_fetch (err e) failed = absurd (ground arith)
    from_fetch (ok signers) fetched = (
      fresh_pool signers,
      ground (arith, lookup-insert_self app (fresh_pool signers) p),
      rw append-nil (Perm.refl _),
    )

IsShared-Nodup :
    (app : ℕ) (out : List ℕ) (p : Pool)
    → IsShared app out p
    → (apool : AppPool) × (lookup app p ≡ some apool)
      × Perm (apool.idle ++ out) (positions_from 0 apool.signers)
      × Nodup (apool.idle ++ out)
IsShared-Nodup app out p (apool, l, perm) =
    (apool, l, perm, Perm.nodup (Perm.symm perm) (positions_from-Nodup 0 apool.signers))

-- After a first successful load of an app, and any interleaving of steps of any number of
-- goroutines, the app is loaded, and its idle signers and those held by callers are together
-- exactly its signers, with none in two places.
pub Reach-Nodup :
    (app : ℕ) (b : Backends) (p : Pool) (t : Shared)
    → lookup app p ≡ none
    → (load b p app).0 ≡ ok tt
    → Reach app (record { pool = (load b p app).1; out = [] }) t
    → (apool : AppPool) × (lookup app t.pool ≡ some apool)
      × Perm (apool.idle ++ t.out) (positions_from 0 apool.signers)
      × Nodup (apool.idle ++ t.out)
Reach-Nodup app b p t absent done r =
    IsShared-Nodup app t.out t.pool (Reach-IsShared app r (load-IsShared app b p absent done))

-- After a first successful load and any interleaving, a checkout never hands out a signer that
-- a caller holds.
pub checkout_exclusive :
    (app : ℕ) (b : Backends) (p : Pool) (t : Shared) (c : Option Error) (r : SignerRef) (q : Pool)
    → lookup app p ≡ none
    → (load b p app).0 ≡ ok tt
    → Reach app (record { pool = (load b p app).1; out = [] }) t
    → checkout t.pool app c ≡ some (ok r, q)
    → ¬ Mem r.index t.out
checkout_exclusive app b p t c r q absent done reach e held =
    let start = load-IsShared app b p absent done in
    let now = Reach-IsShared app reach start in
    let (apool, l, perm, distinct) = IsShared-Nodup app t.out t.pool now in
    let (rest, idle, _, _) = checkout_taken app t.pool q c r apool apool.idle refl l e in
    let clash : Nodup (r.index ∷ rest ++ t.out) = subst (λ xs. Nodup (xs ++ t.out)) idle distinct in
    (Nodup-cons.0 clash).0 (mem-append_right rest held)

-- After a first successful load and any interleaving, the release of a signer that a caller
-- holds never blocks on the channel, and leaves it idle.
pub release_never_blocks :
    (app : ℕ) (b : Backends) (p : Pool) (t : Shared) (i : ℕ) (rest : List ℕ)
    → lookup app p ≡ none
    → (load b p app).0 ≡ ok tt
    → Reach app (record { pool = (load b p app).1; out = [] }) t
    → Perm t.out (i ∷ rest)
    → (q : Pool) × (release t.pool (record { app_id = app; index = i }) ≡ some q)
      × IsShared app rest q
release_never_blocks app b p t i rest absent done reach held =
    release-IsShared app i t.out rest t.pool
      (Reach-IsShared app reach (load-IsShared app b p absent done)) held

-- Two goroutines that load one app at once: the second, which also found the app absent, leaves
-- the first one's pool in place, so signers that are already lent are not lent again.
pub install-install :
    (p : Pool) (app : ℕ) (first second : List Signer)
    → lookup app p ≡ none
    → install (install p app first) app second ≡ install p app first
unfolding install
install-install p app first second absent =
    ground (arith, lookup-insert_self app (fresh_pool first) p)
