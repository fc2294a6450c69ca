-- ===== src/Relay/Goroutines/Held.antt =====
-- internal/relay/service.go and internal/signer/pool.go: which signers the goroutines in `Submit` hold.
use mathlib.Core.List.Perm
use native.Mathlib.Decide.{ℕ_discrete}
use txmill.Base.{
  ℕ, ◌≡◌, ◌≢◌, sym, ap, subst, ◌∙◌, ◌⊎◌, inl, inr, List, [], ◌∷◌, ◌++◌, Option, none, some, ok, err,
  Error, arith, lookup, ◌==◌, if◌then◌else◌,
}
use txmill.Signer.{Signer}
use txmill.Signer.Pool.{Pool, SignerRef, install, checkout, release, store}
use txmill.Signer.Lending.{
  IsShared, keep-IsShared, checkout-elsewhere, release-elsewhere, install-elsewhere,
  checkout-IsShared, release-IsShared, store-IsShared, store_unloaded, install-IsShared,
  install_loaded, checkout_refused, checkout_own, checkout_unloaded,
}
use txmill.Relay.Goroutines.{
  Goroutine, lent, rejecting, priced, reserved, recording, sending, rewinding, failing, accepted,
  notifying, releasing,
}

-- The signer between a goroutine's `Checkout` and its `Release`.
abbrev pub holder : Goroutine → Option SignerRef
holder (lent s i request ref) = some ref
holder (rejecting s request held e) = held
holder (priced s i request ref gas price) = some ref
holder (reserved s i request ref gas price nonce) = some ref
holder (recording s request ref x nonce price) = some ref
holder (sending s request attempt ref x) = some ref
holder (rewinding ref then_mark e) = some ref
holder (failing s attempt ref e) = some ref
holder (accepted s request attempt ref x) = some ref
holder (notifying s request ref x) = some ref
holder (releasing ref r) = some ref
holder _ = none

abbrev pub position : ℕ → Option SignerRef → List ℕ
position app none = []
position app (some ref) = if ref.app_id == app then ref.index ∷ [] else []

-- The positions of the signers of an app that goroutines hold.
abbrev pub held_of : ℕ → List Goroutine → List ℕ
held_of app [] = []
held_of app (g ∷ gs) = position app (holder g) ++ held_of app gs

position_elsewhere : (app : ℕ) (ref : SignerRef) → ref.app_id ≢ app → position app (some ref) ≡ []
position_elsewhere app ref h = grind arith

position_own :
    (app : ℕ) (ref : SignerRef) → ref.app_id ≡ app → position app (some ref) ≡ ref.index ∷ []
position_own app ref h = ground arith

-- Nobody holds a signer of an app that is not in memory; else the idle signers and the held ones are
-- together its signers.
abbrev pub IsHeld : ℕ → Pool → List ℕ → Type 0
IsHeld app p out = ((lookup app p ≡ none) × (out ≡ [])) ⊎ IsShared app out p

module _ (app : ℕ) (out : List ℕ) (p : Pool) where
  elsewhere-IsHeld : (q : Pool) → lookup app q ≡ lookup app p → IsHeld app p out → IsHeld app q out
  elsewhere-IsHeld q e (inl (l, o)) = inl (e ∙ l, o)
  elsewhere-IsHeld q e (inr h) = inr (keep-IsShared app out p q e h)

  store-IsHeld : (r : SignerRef) (v : Signer) → IsHeld app p out → IsHeld app (store p r v) out
  store-IsHeld r v (inl (l, o)) = inl (store_unloaded app p r v l, o)
  store-IsHeld r v (inr h) = inr (store-IsShared app out p r v h)

  install-IsHeld :
      (a : ℕ) (signers : List Signer) → IsHeld app p out → IsHeld app (install p a signers) out
  install-IsHeld a signers h = elim (ℕ_discrete a app) [
    | no other ↦ elsewhere-IsHeld _ (install-elsewhere app a p signers other) h
    | yes same ↦ subst (λ x. IsHeld app (install p x signers) out) (sym same) (own h)
  ]
    where
      own : IsHeld app p out → IsHeld app (install p app signers) out
      own (inl (l, o)) = inr (
          subst (λ xs. IsShared app xs (install p app signers)) (sym o)
            (install-IsShared app p signers l))
      own (inr (x, l, perm)) =
          elsewhere-IsHeld _ (ap (lookup app) (install_loaded app p signers l)) (inr (x, l, perm))

  refused-IsHeld :
      (a : ℕ) (c : Option Error) (q : Pool) {e : Error}
      → checkout p a c ≡ some (err e, q)
      → IsHeld app p out
      → IsHeld app q out
  refused-IsHeld a c q e h = elsewhere-IsHeld q (ap (lookup app) (checkout_refused a p q c e)) h

  lent-IsHeld :
      (a : ℕ) (c : Option Error) (ref : SignerRef) (q : Pool)
      → checkout p a c ≡ some (ok ref, q)
      → IsHeld app p out
      → IsHeld app q (position app (some ref) ++ out)
  lent-IsHeld a c ref q e h = elim (ℕ_discrete a app) [
    | no other ↦
        let from : ref.app_id ≡ a = checkout_own a p q c ref e in
        let moved = elsewhere-IsHeld q (checkout-elsewhere app a p q c other e) h in
        let apart = position_elsewhere app ref (λ x. other (sym from ∙ x)) in
        subst (λ xs. IsHeld app q (xs ++ out)) (sym apart) moved
    | yes same ↦
        let own = subst (λ x. checkout p x c ≡ some (ok ref, q)) same e in
        let from : ref.app_id ≡ app = checkout_own app p q c ref own in
        subst (λ xs. IsHeld app q (xs ++ out)) (sym (position_own app ref from)) (taken own h)
  ]
    where
      taken :
          checkout p app c ≡ some (ok ref, q) → IsHeld app p out → IsHeld app q (ref.index ∷ out)
      taken own (inl (l, o)) = absurd (checkout_unloaded app p q c l own)
      taken own (inr h) = inr (checkout-IsShared app out p q c ref h own)

given-IsHeld :
    (app : ℕ) (rest : List ℕ) (p : Pool) (ref : SignerRef) (q : Pool)
    → release p ref ≡ some q
    → IsHeld app p (position app (some ref) ++ rest)
    → IsHeld app q rest
given-IsHeld app rest p ref q e h = elim (ℕ_discrete ref.app_id app) [
  | no other ↦
      elsewhere-IsHeld app rest p q (release-elsewhere app ref p q other e)
        (subst (λ xs. IsHeld app p (xs ++ rest)) (position_elsewhere app ref other) h)
  | yes same ↦ gave same (subst (λ xs. IsHeld app p (xs ++ rest)) (position_own app ref same) h)
]
  where
    gave : ref.app_id ≡ app → IsHeld app p (ref.index ∷ rest) → IsHeld app q rest
    gave same (inl (l, o)) = cc
    gave same (inr shared) =
        let (q', released, after) =
          release-IsShared app ref.index (ref.index ∷ rest) rest p shared (Perm.refl _) in
        inr (subst (IsShared app rest) (ground (arith, released, e, same)) after)

-- What a step of a goroutine does to the pool, with the signer that it holds before and after.
pub data Handling (held held' : Option SignerRef) (p q : Pool) : Type 0 where
  kept : held' ≡ held → q ≡ p → Handling held held' p q
  wrote :
      (ref : SignerRef) (v : Signer) → held' ≡ held → q ≡ store p ref v → Handling held held' p q
  filled :
      (a : ℕ) (signers : List Signer)
      → held' ≡ held
      → q ≡ install p a signers
      → Handling held held' p q
  refused :
      (a : ℕ) (c : Option Error) (e : Error)
      → held' ≡ held
      → checkout p a c ≡ some (err e, q)
      → Handling held held' p q
  took :
      (a : ℕ) (c : Option Error) (ref : SignerRef)
      → held ≡ none
      → held' ≡ some ref
      → checkout p a c ≡ some (ok ref, q)
      → Handling held held' p q
  gave :
      (ref : SignerRef)
      → held ≡ some ref
      → held' ≡ none
      → release p ref ≡ some q
      → Handling held held' p q

pub Handling-IsHeld :
    (app : ℕ) (rest : List ℕ) {held held' : Option SignerRef} {p q : Pool}
    → Handling held held' p q
    → IsHeld app p (position app held ++ rest)
    → IsHeld app q (position app held' ++ rest)
Handling-IsHeld app rest (kept o e) h = rw (o, e) h
Handling-IsHeld app rest (wrote ref v o e) h = rw (o, e) (store-IsHeld app _ _ ref v h)
Handling-IsHeld app rest (filled a signers o e) h = rw (o, e) (install-IsHeld app _ _ a signers h)
Handling-IsHeld app rest (refused a c x o e) h = rw o (refused-IsHeld app _ _ a c _ e h)
Handling-IsHeld app rest {held} {p} {q} (took a c ref n o e) h =
    rw o
      (lent-IsHeld app rest p a c ref q e (subst (λ x. IsHeld app p (position app x ++ rest)) n h))
Handling-IsHeld app rest {held} {p} {q} (gave ref o n e) h =
    rw n (given-IsHeld app rest p ref q e (subst (λ x. IsHeld app p (position app x ++ rest)) o h))
