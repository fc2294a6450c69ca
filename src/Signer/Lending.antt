-- ===== src/Signer/Lending.antt =====
-- internal/signer/pool.go, one call at a time: how a call divides an app's signers between the idle
-- ones and those that callers hold.
use mathlib.Core.List.{
  Mem, Nodup, Perm, Permᴰ, Nodup-cons, Nodup-nil, not-mem-nil, mem-cons, append-nil,
}
use mathlib.Core.List.{append_assoc, perm_middle}
use mathlib.Core.List.Perm
use mathlib.Core.Logic.Or
use mathlib.Core.Logic.{∥∥₁_elim}
use native.Mathlib.Bridge.{le_prop}
use native.Mathlib.Decide.{ℕ_discrete}
use native.Mathlib.Nat.{ℕ_set}
use txmill.Base.{
  ℕ, zero, suc, ◌≤◌, ◌<◌, ◌≡◌, ◌≢◌, refl, ◌∙◌, ap, subst, List, [], ◌∷◌, ◌++◌, Option, none, some,
  Result, ok, err, Error, arith, length, length-append, set, lookup, insert, lookup-insert,
}
use txmill.Signer.{Signer}
use txmill.Signer.Pool.{
  AppPool, Pool, SignerRef, Backends, positions_from, fresh_pool, install, load, checkout, release,
  store,
}

length-positions_from : (k : ℕ) (xs : List Signer) → length (positions_from k xs) ≡ length xs
length-positions_from k [] = refl
length-positions_from k (x ∷ xs) = ap suc (length-positions_from (suc k) xs)

positions_from-set :
    (k i : ℕ) (v : Signer) (xs : List Signer) → positions_from k (set xs i v) ≡ positions_from k xs
positions_from-set k i v [] = refl
positions_from-set k zero v (x ∷ xs) = refl
positions_from-set k (suc i) v (x ∷ xs) = ap (◌∷◌ k) (positions_from-set (suc k) i v xs)

le_of_mem_positions : (k i : ℕ) (xs : List Signer) → Mem i (positions_from k xs) → k ≤ i
le_of_mem_positions k i [] m = absurd (not-mem-nil m)
le_of_mem_positions k i (x ∷ xs) m =
    Or.elim le_prop (mem-cons.0 m) (λ e. omega arith)
      λ t. let h = le_of_mem_positions (suc k) i xs t in omega arith

pub positions_from-Nodup : (k : ℕ) (xs : List Signer) → Nodup (positions_from k xs)
positions_from-Nodup k [] = Nodup-nil
positions_from-Nodup k (x ∷ xs) = Nodup-cons.1 (
  λ m. let h = le_of_mem_positions (suc k) k xs m in omega arith,
  positions_from-Nodup (suc k) xs,
)

length-Permᴰ : {xs ys : List ℕ} → Permᴰ xs ys → length xs ≡ length ys
length-Permᴰ Permᴰ.nil = refl
length-Permᴰ (Permᴰ.cons e p) = ap suc (length-Permᴰ p)
length-Permᴰ (Permᴰ.swap e f) = refl
length-Permᴰ (Permᴰ.trans p q) = length-Permᴰ p ∙ length-Permᴰ q

pub length-Perm : {xs ys : List ℕ} → Perm xs ys → length xs ≡ length ys
length-Perm p = ∥∥₁_elim p (ℕ_set _ _) length-Permᴰ

-- The idle signers of `app` and the lent ones, `out`, are together its signers, each once.
abbrev pub IsShared : ℕ → List ℕ → Pool → Type 0
IsShared app out p =
    (apool : AppPool) × (lookup app p ≡ some apool)
    × Perm (apool.idle ++ out) (positions_from 0 apool.signers)

pub keep-IsShared :
    (app : ℕ) (out : List ℕ) (p q : Pool)
    → lookup app q ≡ lookup app p
    → IsShared app out p
    → IsShared app out q
keep-IsShared app out p q e (apool, l, perm) = (apool, e ∙ l, perm)

lookup-insert_ne :
    {V : Type 0} (j k : ℕ) (v : V) (m : List (ℕ × V)) → k ≢ j → lookup j (insert k v m) ≡ lookup j m
lookup-insert_ne j k v m h = ground (arith, lookup-insert j k v m)

pub lookup-insert_self :
    {V : Type 0} (k : ℕ) (v : V) (m : List (ℕ × V)) → lookup k (insert k v m) ≡ some v
lookup-insert_self k v m = ground (arith, lookup-insert k k v m)

-- Calls for another app leave this one's entry alone.
pub checkout-elsewhere :
    (app a : ℕ) (p q : Pool) (c : Option Error) {r : Result SignerRef}
    → a ≢ app
    → checkout p a c ≡ some (r, q)
    → lookup app q ≡ lookup app p
unfolding checkout
checkout-elsewhere app a p q c h e = grind (arith, lookup-insert_ne app a)

pub release-elsewhere :
    (app : ℕ) (r : SignerRef) (p q : Pool)
    → r.app_id ≢ app
    → release p r ≡ some q
    → lookup app q ≡ lookup app p
unfolding release
release-elsewhere app r p q h e = grind (arith, lookup-insert_ne app r.app_id)

pub load-lookup :
    (app a : ℕ) (b : Backends) (p : Pool) {apool : AppPool}
    → lookup app p ≡ some apool
    → lookup app (load b p a).1 ≡ lookup app p
unfolding load install
load-lookup app a b p e = elim (ℕ_discrete a app) [
  | yes same ↦ rw same (ground arith)
  | no other ↦ grind (arith, lookup-insert_ne app a)
]

-- What a successful checkout took, and what it left.
pub checkout_taken :
    (app : ℕ) (p q : Pool) (c : Option Error) (r : SignerRef) (apool : AppPool) (xs : List ℕ)
    → apool.idle ≡ xs
    → lookup app p ≡ some apool
    → checkout p app c ≡ some (ok r, q)
    → (rest : List ℕ) × (apool.idle ≡ r.index ∷ rest)
      × (r.app_id ≡ app)
      × (q ≡ insert app (record apool { idle = rest }) p)
unfolding checkout
checkout_taken app p q c r apool [] i l e = ground arith
checkout_taken app p q c r apool (x ∷ rest) i l e = (rest, ground arith, ground arith, ground arith)

-- A checkout moves one signer from the idle ones to the lent ones.
pub checkout-IsShared :
    (app : ℕ) (out : List ℕ) (p q : Pool) (c : Option Error) (r : SignerRef)
    → IsShared app out p
    → checkout p app c ≡ some (ok r, q)
    → IsShared app (r.index ∷ out) q
checkout-IsShared app out p q c r (apool, l, perm) e =
    let (rest, idle, _, left) = checkout_taken app p q c r apool apool.idle refl l e in
    (
      record apool { idle = rest },
      ap (lookup app) left ∙ lookup-insert_self app _ p,
      Perm.trans (perm_middle rest out)
          (subst (λ xs. Perm (xs ++ out) (positions_from 0 apool.signers)) idle perm),
    )

-- A lent signer always fits into the channel, and goes back to the idle ones.
pub release-IsShared :
    (app i : ℕ) (out rest : List ℕ) (p : Pool)
    → IsShared app out p
    → Perm out (i ∷ rest)
    → (q : Pool) × (release p (record { app_id = app; index = i }) ≡ some q) × IsShared app rest q
unfolding release
release-IsShared app i out rest p (apool, l, perm) split =
    let fits : length apool.idle < length apool.signers = omega (
      arith,
      length-Perm perm,
      length-Perm split,
      length-append apool.idle out,
      length-positions_from 0 apool.signers,
    ) in
    let back = record apool { idle = apool.idle ++ i ∷ [] } in
    let regained : Perm (apool.idle ++ i ∷ rest) (positions_from 0 apool.signers) =
      Perm.trans (Perm.append_left apool.idle (Perm.symm split)) perm in
    (
      insert app back p,
      ground arith,
      (back, lookup-insert_self app back p, rw append_assoc regained),
    )

pub store-IsShared :
    (app : ℕ) (out : List ℕ) (p : Pool) (r : SignerRef) (v : Signer)
    → IsShared app out p
    → IsShared app out (store p r v)
unfolding store
store-IsShared app out p r v (apool, l, perm) = elim (ℕ_discrete r.app_id app) [
  | yes same ↦
      let there : lookup r.app_id p ≡ some apool = rw same l in
      let written = record apool { signers = set apool.signers r.index v } in
      (
        written,
        rw (there, store, same) (lookup-insert_self app written p),
        rw (positions_from-set 0 r.index v apool.signers) perm,
      )
  | no other ↦ (apool, grind (arith, lookup-insert_ne app r.app_id), perm)
]

pub checkout_refused :
    (app : ℕ) (p q : Pool) (c : Option Error) {e : Error}
    → checkout p app c ≡ some (err e, q)
    → q ≡ p
unfolding checkout
checkout_refused app p q c h = ground arith

-- An `install` for another app leaves this one's entry alone; one for an app that is there changes
-- nothing; one for an app that is not makes all its signers idle.
pub install-elsewhere :
    (app a : ℕ) (p : Pool) (signers : List Signer)
    → a ≢ app
    → lookup app (install p a signers) ≡ lookup app p
unfolding install
install-elsewhere app a p signers h = grind (arith, lookup-insert_ne app a)

pub install_loaded :
    (app : ℕ) (p : Pool) (signers : List Signer) {apool : AppPool}
    → lookup app p ≡ some apool
    → install p app signers ≡ p
unfolding install
install_loaded app p signers l = ground arith

pub install-IsShared :
    (app : ℕ) (p : Pool) (signers : List Signer)
    → lookup app p ≡ none
    → IsShared app [] (install p app signers)
unfolding install
install-IsShared app p signers l = (
  fresh_pool signers,
  ground (arith, lookup-insert_self app (fresh_pool signers) p),
  rw append-nil (Perm.refl _),
)

-- A pool that lacks an app is not changed for it by a write, and lends nothing for it.
pub store_unloaded :
    (app : ℕ) (p : Pool) (r : SignerRef) (v : Signer)
    → lookup app p ≡ none
    → lookup app (store p r v) ≡ none
unfolding store
store_unloaded app p r v l = elim (ℕ_discrete r.app_id app) [
  | yes same ↦ ground (arith, same)
  | no other ↦ grind (arith, lookup-insert_ne app r.app_id)
]

pub checkout_unloaded :
    (app : ℕ) (p q : Pool) (c : Option Error) {r : SignerRef}
    → lookup app p ≡ none
    → ¬ (checkout p app c ≡ some (ok r, q))
unfolding checkout
checkout_unloaded app p q c l e = ground arith

-- A checkout lends a signer of the app that it was asked for.
pub checkout_own :
    (app : ℕ) (p q : Pool) (c : Option Error) (r : SignerRef)
    → checkout p app c ≡ some (ok r, q)
    → r.app_id ≡ app
unfolding checkout
checkout_own app p q c r e = ground arith
