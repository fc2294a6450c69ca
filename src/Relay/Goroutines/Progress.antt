-- ===== src/Relay/Goroutines/Progress.antt =====
-- internal/relay/service.go: goroutines that hold a signer always get on.
use mathlib.Core.List.{Mem, mem-cons, not-mem-nil, mem-append_right, mem-cons_self}
use mathlib.Core.List.Perm
use mathlib.Core.Logic.Or
use native.Mathlib.Bridge.{le_prop}
use txmill.Base.{
  ℕ, zero, suc, ◌+◌, ◌<◌, ◌≤◌, ◌≡◌, ◌≢◌, refl, ap, subst, ◌∙◌, inl, inr, List, [], ◌∷◌, ◌++◌,
  Option, none, some, Error, arith, length, lookup, get_elem?, Option-cases,
}
use txmill.Signer.{Signer}
use txmill.Signer.Pool.{Pool, SignerRef, positions_from, deref, release, new_pool}
use txmill.Signer.Lending.{release-IsShared}
use txmill.Relay.Service.{Service, World}
use txmill.Relay.Goroutines.{
  Goroutine, entering, loading, installing, waiting, lent, rejecting, priced, reserved, recording,
  sending, rewinding, failing, accepted, notifying, releasing, returned, advance, leave,
  after_rewind, System, Reach, started,
}
use txmill.Relay.Goroutines.Held.{holder, position, held_of, IsHeld}
use txmill.Relay.Goroutines.Counting.{position_self}
use txmill.Relay.Goroutines.Handling.{held_of-Perm, perm-IsHeld, others, Reach-IsLawful}

mem_positions_bound :
    (k i : ℕ) (xs : List Signer) → Mem i (positions_from k xs) → suc i ≤ k + length xs
mem_positions_bound k i [] m = absurd (not-mem-nil m)
mem_positions_bound k i (x ∷ xs) m =
    Or.elim le_prop (mem-cons.0 m) (λ e. omega arith)
      λ t. let h = mem_positions_bound (suc k) i xs t in omega arith

get_elem?_valid :
    (xs : List Signer) (i : ℕ) → i < length xs → (v : Signer) × (get_elem? xs i ≡ some v)
get_elem?_valid [] i h = absurd (omega arith)
get_elem?_valid (x ∷ xs) zero h = (x, refl)
get_elem?_valid (x ∷ xs) (suc i) h = get_elem?_valid xs i (omega arith)

-- A signer that somebody holds is there, and fits back into the channel.
held_valid :
    (ref : SignerRef) (rest : List ℕ) (p : Pool)
    → IsHeld ref.app_id p (ref.index ∷ rest)
    → ((sig : Signer) × (deref p ref ≡ some sig)) × ((q : Pool) × (release p ref ≡ some q))
unfolding deref
held_valid ref rest p (inl (l, o)) = cc
held_valid ref rest p (inr (apool, l, perm)) =
    let (q, back, _) =
      release-IsShared ref.app_id ref.index (ref.index ∷ rest) rest p (apool, l, perm)
        (Perm.refl _) in
    let there : Mem ref.index (positions_from 0 apool.signers) =
      (Perm.mem_iff perm).0 (mem-append_right apool.idle mem-cons_self) in
    let (sig, got) =
      get_elem?_valid apool.signers ref.index
        (omega (arith, mem_positions_bound 0 ref.index apool.signers there)) in
    ((sig, ground arith), (q, back))

-- How many steps a goroutine has left, at most.
abbrev pub rank : Goroutine → ℕ
rank (entering s i) = 12
rank (loading s i request) = 11
rank (installing s i request signers) = 10
rank (waiting s i request) = 9
rank (lent s i request ref) = 8
rank (priced s i request ref gas price) = 7
rank (reserved s i request ref gas price nonce) = 6
rank (recording s request ref x nonce price) = 5
rank (sending s request attempt ref x) = 4
rank (rewinding ref then_mark e) = 3
rank (accepted s request attempt ref x) = 3
rank (rejecting s request held e) = 2
rank (failing s attempt ref e) = 2
rank (notifying s request ref x) = 2
rank (releasing ref r) = 1
rank (returned r) = 0

rank-leave : (held : Option SignerRef) (e : Error) → rank (leave held e) < 2
rank-leave none e = omega arith
rank-leave (some ref) e = omega arith

rank-after_rewind :
    (ref : SignerRef) (e : Error) (m : Option (Service × ℕ)) → rank (after_rewind ref e m) < 3
rank-after_rewind ref e none = omega arith
rank-after_rewind ref e (some (s, attempt)) = omega arith

rank-advance : (g g' : Goroutine) (w w' : World) → advance g w ≡ some (g', w') → rank g' < rank g
unfolding advance
rank-advance (entering s i) g' w w' e = ground arith
rank-advance (loading s i request) g' w w' e = ground arith
rank-advance (installing s i request signers) g' w w' e = ground arith
rank-advance (waiting s i request) g' w w' e = ground arith
rank-advance (lent s i request ref) g' w w' e = ground arith
rank-advance (rejecting s request held x) g' w w' e = ground (arith, rank-leave held x)
rank-advance (priced s i request ref gas price) g' w w' e = ground arith
rank-advance (reserved s i request ref gas price nonce) g' w w' e = ground arith
rank-advance (recording s request ref x nonce price) g' w w' e = ground arith
rank-advance (sending s request attempt ref x) g' w w' e = ground arith
rank-advance (rewinding ref m x) g' w w' e = ground (arith, rank-after_rewind ref x m)
rank-advance (failing s attempt ref x) g' w w' e = ground arith
rank-advance (accepted s request attempt ref x) g' w w' e = ground arith
rank-advance (notifying s request ref x) g' w w' e = ground arith
rank-advance (releasing ref x) g' w w' e = ground arith
rank-advance (returned x) g' w w' e = absurd (ground arith)

advance_ready :
    (g : Goroutine) (ref : SignerRef) (w : World) (sig : Signer) (q : Pool)
    → holder g ≡ some ref
    → deref w.pool ref ≡ some sig
    → release w.pool ref ≡ some q
    → advance g w ≢ none
unfolding advance
advance_ready (entering s i) ref w sig q h l b e = cc
advance_ready (loading s i request) ref w sig q h l b e = cc
advance_ready (installing s i request signers) ref w sig q h l b e = cc
advance_ready (waiting s i request) ref w sig q h l b e = cc
advance_ready (lent s i request own) ref w sig q h l b e = ground arith
advance_ready (rejecting s request held x) ref w sig q h l b e = ground arith
advance_ready (priced s i request own gas price) ref w sig q h l b e = ground arith
advance_ready (reserved s i request own gas price nonce) ref w sig q h l b e = ground arith
advance_ready (recording s request own x nonce price) ref w sig q h l b e = ground arith
advance_ready (sending s request attempt own x) ref w sig q h l b e = ground arith
advance_ready (rewinding own m x) ref w sig q h l b e = ground arith
advance_ready (failing s attempt own x) ref w sig q h l b e = ground arith
advance_ready (accepted s request attempt own x) ref w sig q h l b e = ground arith
advance_ready (notifying s request own x) ref w sig q h l b e = ground arith
advance_ready (releasing own x) ref w sig q h l b e = ground arith
advance_ready (returned x) ref w sig q h l b e = cc

-- From an empty pool on, however goroutines interleave and whatever other parts of the process do to
-- the database, a goroutine that holds a signer is never stuck: it can make its next access, the send
-- that gives the signer back included, and has fewer left afterwards.
pub holder-advances :
    (P : Service → Type 0) (w : World) (b : System) (before after : List Goroutine) (g : Goroutine)
    (ref : SignerRef)
    → w.pool ≡ new_pool
    → Reach P (started w) b
    → b.running ≡ before ++ g ∷ after
    → holder g ≡ some ref
    → (g' : Goroutine) × (w' : World) × (advance g b.world ≡ some (g', w')) × (rank g' < rank g)
unfolding new_pool
holder-advances P w b before after g ref empty reach there holds =
    let lawful = Reach-IsLawful P ref.app_id reach (inl (ap (lookup ref.app_id) empty, refl)) in
    let all = subst (λ gs. IsHeld ref.app_id b.world.pool (held_of ref.app_id gs)) there lawful in
    let split = perm-IsHeld ref.app_id b.world.pool (held_of-Perm ref.app_id before after g) all in
    let rest = others ref.app_id before after in
    let own = ap (position ref.app_id) holds ∙ position_self ref in
    let ((sig, l), (q, back)) =
      held_valid ref rest b.world.pool
        (subst (λ xs. IsHeld ref.app_id b.world.pool (xs ++ rest)) own split) in
    elim (Option-cases (advance g b.world)) [
      | inl stuck ↦ absurd (advance_ready g ref b.world sig q holds l back stuck)
      | inr ((g', w'), e) ↦ (g', w', e, rank-advance g g' b.world w' e)
    ]
