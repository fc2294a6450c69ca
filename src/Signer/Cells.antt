-- ===== src/Signer/Cells.antt =====
-- internal/signer/pool.go: which calls change what a `*Signer` points to.
use txmill.Base.{
  ok, err, false, [], ◌∷◌, ◌++◌, ℕ, ◌≡◌, refl, Bool, ◌&&◌, Option, none, some, Result, Error, arith,
  inl, inr, Option-cases, lookup, insert, set, get_elem?-set_self, get_elem?-set_ne, get_elem?-lt,
  ◌==◌, List, lookup-insert,
}
use txmill.Signer.{Signer}
use txmill.Signer.Lending.{lookup-insert_self}
use txmill.Signer.Pool.{
  AppPool, Pool, SignerRef, Backends, fresh_pool, fetch, install, load, checkout, release, deref,
  store,
}

abbrev pub same_ref : SignerRef → SignerRef → Bool
same_ref r s = r.app_id == s.app_id && r.index == s.index

-- What the signers of an app are after its entry was written anew with the same signers.
deref-insert :
    (p : Pool) (a : ℕ) (x y : AppPool) (r : SignerRef)
    → lookup a p ≡ some x
    → y.signers ≡ x.signers
    → deref (insert a y p) r ≡ deref p r
unfolding deref
deref-insert p a x y r l e = ground (arith, lookup-insert r.app_id a y p)

deref-insert_new :
    (p : Pool) (a : ℕ) (y : AppPool) (r : SignerRef) {v : Signer}
    → lookup a p ≡ none
    → deref p r ≡ some v
    → deref (insert a y p) r ≡ some v
unfolding deref
deref-insert_new p a y r l e = ground (arith, lookup-insert r.app_id a y p)

checkout_from :
    (p q : Pool) (a : ℕ) (c : Option Error) (r : SignerRef) {x : Result SignerRef} (apool : AppPool)
    (xs : List ℕ)
    → lookup a p ≡ some apool
    → apool.idle ≡ xs
    → checkout p a c ≡ some (x, q)
    → deref q r ≡ deref p r
unfolding checkout
checkout_from p q a c r apool [] l i e = ground arith
checkout_from p q a c r apool (j ∷ rest) l i e =
    ground (arith, deref-insert p a apool (record apool { idle = rest }) r l refl)

-- A checkout changes no signer.
pub deref-checkout :
    (p q : Pool) (a : ℕ) (c : Option Error) (r : SignerRef) {x : Result SignerRef}
    → checkout p a c ≡ some (x, q)
    → deref q r ≡ deref p r
unfolding checkout
deref-checkout p q a c r e = elim (Option-cases (lookup a p)) [
  | inl absent ↦ ground arith
  | inr (apool, l) ↦ checkout_from p q a c r apool apool.idle l refl e
]

-- Nor does a release.
pub deref-release : (p q : Pool) (s r : SignerRef) → release p s ≡ some q → deref q r ≡ deref p r
unfolding release
deref-release p q s r e = elim (Option-cases (lookup s.app_id p)) [
  | inl absent ↦ ground arith
  | inr (apool, l) ↦
      let back = record apool { idle = apool.idle ++ s.index ∷ [] } in
      ground (arith, deref-insert p s.app_id apool back r l refl)
]

-- Loading keeps every signer that is there.
pub deref-load :
    (b : Backends) (p : Pool) (a : ℕ) (r : SignerRef) {v : Signer}
    → deref p r ≡ some v
    → deref (load b p a).1 r ≡ some v
unfolding load install
deref-load b p a r {v} e = elim (Option-cases (lookup a p)) [
  | inr (apool, l) ↦ rw (l, load) e
  | inl absent ↦ from_fetch (fetch b a) absent refl
]
  where
    from_fetch :
        (x : Result (List Signer))
        → lookup a p ≡ none
        → fetch b a ≡ x
        → deref (load b p a).1 r ≡ some v
    from_fetch (err x) absent failed = ground arith
    from_fetch (ok signers) absent fetched =
        ground (arith, deref-insert_new p a (fresh_pool signers) r absent e)

pub deref-install :
    (p : Pool) (a : ℕ) (signers : List Signer) (r : SignerRef) {v : Signer}
    → deref p r ≡ some v
    → deref (install p a signers) r ≡ some v
unfolding install
deref-install p a signers r {v} e = elim (Option-cases (lookup a p)) [
  | inl absent ↦ ground (arith, deref-insert_new p a (fresh_pool signers) r absent e)
  | inr (apool, l) ↦ ground arith
]

-- A write changes the one signer that it goes to.
pub deref-store_self :
    (p : Pool) (r : SignerRef) (v : Signer) {old : Signer}
    → deref p r ≡ some old
    → deref (store p r v) r ≡ some v
unfolding deref store
deref-store_self p r v {old} e = elim (Option-cases (lookup r.app_id p)) [
  | inl absent ↦ ground arith
  | inr (apool, l) ↦
      let written = record apool { signers = set apool.signers r.index v } in
      ground (
        arith,
        lookup-insert_self r.app_id written p,
        get_elem?-lt apool.signers r.index {v = old},
        get_elem?-set_self apool.signers r.index v,
      )
]

pub deref-store_ne :
    (p : Pool) (s r : SignerRef) (v : Signer)
    → same_ref s r ≡ false
    → deref (store p s v) r ≡ deref p r
unfolding deref store
deref-store_ne p s r v ne = elim (Option-cases (lookup s.app_id p)) [
  | inl absent ↦ ground arith
  | inr (apool, l) ↦
      let written = record apool { signers = set apool.signers s.index v } in
      ground (
        arith,
        lookup-insert r.app_id s.app_id written p,
        get_elem?-set_ne apool.signers {i = s.index} {j = r.index} v,
      )
]
