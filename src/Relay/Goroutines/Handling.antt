-- ===== src/Relay/Goroutines/Handling.antt =====
-- internal/relay/service.go: what each step of `Submit` does to the pool of signers, and so what any
-- interleaving leaves of it.
use mathlib.Core.List.{Perm, append_assoc, perm_middle}
use mathlib.Core.List.Perm
use txmill.Base.{
  ℕ, ◌≡◌, refl, sym, ap, subst, ◌∙◌, inl, inr, List, [], ◌∷◌, ◌++◌, Option, none, some, Error,
  arith, Option-cases, Result-cases, Bool, true, false, ◌==◌, if◌then◌else◌,
}
use txmill.Signer.{use_nonce, rewind_nonce}
use txmill.Signer.Pool.{Pool, SignerRef, checkout, deref}
use txmill.Relay.Service.{Service, World}
use txmill.Relay.Goroutines.{
  Goroutine, entering, loading, installing, waiting, lent, rejecting, priced, reserved, recording,
  sending, rewinding, failing, accepted, notifying, releasing, returned, advance, leave, System,
  Step, arrives, runs, elsewhere, Reach, here, next,
}
use txmill.Relay.Goroutines.Held.{
  holder, position, held_of, IsHeld, Handling, kept, wrote, filled, refused, took, gave,
  Handling-IsHeld,
}

holder-leave : (held : Option SignerRef) (e : Error) → holder (leave held e) ≡ held
holder-leave none e = refl
holder-leave (some ref) e = refl

advance-Handling :
    (g g' : Goroutine) (w w' : World)
    → advance g w ≡ some (g', w')
    → Handling (holder g) (holder g') w.pool w'.pool
unfolding advance
advance-Handling (entering s i) g' w w' e = kept (ground arith) (ground arith)
advance-Handling (loading s i request) g' w w' e = kept (ground arith) (ground arith)
advance-Handling (installing s i request signers) g' w w' e =
    filled i.app_id signers (ground arith) (ground arith)
advance-Handling (waiting s i request) g' w w' e =
    elim (Option-cases (checkout w.pool i.app_id s.cancelled)) [
      | inl blocked ↦ absurd (ground arith)
      | inr ((r, p), c) ↦ elim (Result-cases r) [
        | inl (x, failed) ↦ refused i.app_id s.cancelled x (ground arith) (ground arith)
        | inr (ref, done) ↦ took i.app_id s.cancelled ref refl (ground arith) (ground arith)
      ]
    ]
advance-Handling (lent s i request ref) g' w w' e = kept (ground arith) (ground arith)
advance-Handling (rejecting s request held x) g' w w' e =
    kept (ground (arith, holder-leave held x)) (ground arith)
advance-Handling (priced s i request ref gas price) g' w w' e =
    elim (Option-cases (deref w.pool ref)) [
      | inl lost ↦ absurd (ground arith)
      | inr (sig, l) ↦ wrote ref (use_nonce sig).1 (ground arith) (ground arith)
    ]
advance-Handling (reserved s i request ref gas price nonce) g' w w' e =
    kept (ground arith) (ground arith)
advance-Handling (recording s request ref x nonce price) g' w w' e =
    kept (ground arith) (ground arith)
advance-Handling (sending s request attempt ref x) g' w w' e = kept (ground arith) (ground arith)
advance-Handling (rewinding ref then_mark x) g' w w' e = elim (Option-cases (deref w.pool ref)) [
  | inl lost ↦ absurd (ground arith)
  | inr (sig, l) ↦ wrote ref (rewind_nonce sig) (ground arith) (ground arith)
]
advance-Handling (failing s attempt ref x) g' w w' e = kept (ground arith) (ground arith)
advance-Handling (accepted s request attempt ref x) g' w w' e = kept (ground arith) (ground arith)
advance-Handling (notifying s request ref x) g' w w' e = kept (ground arith) (ground arith)
advance-Handling (releasing ref r) g' w w' e = gave ref refl (ground arith) (ground arith)
advance-Handling (returned r) g' w w' e = absurd (ground arith)

pub held_of-append :
    (app : ℕ) (xs ys : List Goroutine) → held_of app (xs ++ ys) ≡ held_of app xs ++ held_of app ys
held_of-append app [] ys = refl
held_of-append app (g ∷ xs) ys =
    ap (λ zs. position app (holder g) ++ zs) (held_of-append app xs ys)
    ∙ sym (append_assoc (position app (holder g)) (held_of app xs) (held_of app ys))

-- Every other goroutine's signers, whichever one is picked.
abbrev pub others : ℕ → List Goroutine → List Goroutine → List ℕ
others app before after = held_of app before ++ held_of app after

position_middle :
    (held : Option SignerRef) (app : ℕ) (xs ys : List ℕ)
    → Perm (xs ++ (position app held ++ ys)) (position app held ++ (xs ++ ys))
position_middle none app xs ys = Perm.refl _
position_middle (some ref) app xs ys = at_app (ref.app_id == app)
  where
    at_app :
        (b : Bool)
        → Perm
            (xs ++ ((if b then ref.index ∷ [] else []) ++ ys))
            ((if b then ref.index ∷ [] else []) ++ (xs ++ ys))
    at_app true = perm_middle xs ys
    at_app false = Perm.refl _

pub held_of-Perm :
    (app : ℕ) (before after : List Goroutine) (g : Goroutine)
    → Perm (held_of app (before ++ g ∷ after)) (position app (holder g) ++ others app before after)
held_of-Perm app before after g =
    subst (λ xs. Perm xs (position app (holder g) ++ (held_of app before ++ held_of app after)))
      (sym (held_of-append app before (g ∷ after)))
      (position_middle (holder g) app (held_of app before) (held_of app after))

pub perm-IsHeld :
    (app : ℕ) (p : Pool) {xs ys : List ℕ} → Perm xs ys → IsHeld app p xs → IsHeld app p ys
perm-IsHeld app p {xs} {ys} perm (inl (l, o)) =
    inl (l, sym (Perm.nil-eq (subst (λ zs. Perm zs ys) o perm)))
perm-IsHeld app p perm (inr (x, l, all)) =
    inr (x, l, Perm.trans (Perm.append_left x.idle (Perm.symm perm)) all)

module _ (P : Service → Type 0) (app : ℕ) where
  abbrev pub IsLawful : System → Type 0
  IsLawful a = IsHeld app a.world.pool (held_of app a.running)

  pub Step-IsLawful : {a b : System} → Step P a b → IsLawful a → IsLawful b
  Step-IsLawful (arrives s i honest same more) h = rw (more, same) h
  Step-IsLawful (elsewhere d same still) h = rw (still, same) h
  Step-IsLawful {a} {b} (runs before after g g' was moved is) h =
      let one = subst (λ gs. IsHeld app a.world.pool (held_of app gs)) was h in
      let split = perm-IsHeld app a.world.pool (held_of-Perm app before after g) one in
      let after_one =
        Handling-IsHeld app (others app before after) (advance-Handling g g' a.world b.world moved)
          split in
      let joined =
        perm-IsHeld app b.world.pool (Perm.symm (held_of-Perm app before after g')) after_one in
      subst (λ gs. IsHeld app b.world.pool (held_of app gs)) (sym is) joined

  pub Reach-IsLawful : {a b : System} → Reach P a b → IsLawful a → IsLawful b
  Reach-IsLawful here h = h
  Reach-IsLawful (next r st) h = Step-IsLawful st (Reach-IsLawful r h)
