-- ===== src/Relay/Goroutines/Counting.antt =====
-- internal/relay/service.go: how many nonces of a signer goroutines have reserved at once.
use mathlib.Core.List.{Mem, Nodup, Nodup-cons, mem-cons_self, mem-cons_of_mem}
use mathlib.Core.List.Perm
use txmill.Base.{
  ℕ, zero, suc, ◌+◌, ◌%◌, ◌^◌, ◌≤◌, ◌≡◌, refl, sym, ap, subst, ◌∙◌, inl, inr, Bool, true, false,
  List, [], ◌∷◌, ◌++◌, some, arith, Bool-cases, All, ◌==◌,
}
use txmill.Signer.Pool.{Pool, SignerRef}
use txmill.Signer.Lending.{positions_from-Nodup}
use txmill.Relay.Service.{Service}
use txmill.Relay.Nonces.{same_ref-eq}
use txmill.Relay.Goroutines.{
  Goroutine, System, entering, loading, installing, waiting, lent, rejecting, priced, reserved,
  recording, sending, rewinding, failing, accepted, notifying, releasing, returned,
}
use txmill.Relay.Goroutines.Held.{holder, position, held_of, IsHeld}
use txmill.Relay.Goroutines.Handling.{IsLawful}
use txmill.Relay.Goroutines.Moves.{reserves, IsStamped, unreserved-IsStamped}

abbrev pub one_if : Bool → ℕ
one_if true = 1
one_if false = 0

-- How many nonces of a signer goroutines have reserved and neither sent nor given back.
abbrev pub reservations : SignerRef → List Goroutine → ℕ
reservations r [] = 0
reservations r (g ∷ gs) = one_if (reserves r g) + reservations r gs

-- n, n + 1, …, as a uint64 counts.
abbrev pub wrapped_from : ℕ → ℕ → List ℕ
wrapped_from zero n = []
wrapped_from (suc k) n = n % 2 ^ 64 ∷ wrapped_from k (n + 1)

pub wrapped_from-append :
    (k n : ℕ) → wrapped_from k n ++ ((n + k) % 2 ^ 64) ∷ [] ≡ wrapped_from (suc k) n
wrapped_from-append zero n = ground arith
wrapped_from-append (suc k) n = ground (arith, wrapped_from-append k (n + 1))

pub reservations-append :
    (r : SignerRef) (xs ys : List Goroutine)
    → reservations r (xs ++ ys) ≡ reservations r xs + reservations r ys
reservations-append r [] ys = omega arith
reservations-append r (g ∷ xs) ys = omega (arith, reservations-append r xs ys)

pub unreserved-All :
    (r : SignerRef) (n : ℕ) (gs : List Goroutine) → reservations r gs ≡ 0 → All (IsStamped r n) gs
unreserved-All r n [] h = tt
unreserved-All r n (g ∷ gs) h = elim (Bool-cases (reserves r g)) [
  | inl t ↦ absurd (omega (arith, ap one_if t))
  | inr f ↦ (unreserved-IsStamped r n g f, unreserved-All r n gs (omega arith))
]

module _ (P : Goroutine → Type 0) (g : Goroutine) where
  pub All-replace :
      (g' : Goroutine) (xs ys : List Goroutine)
      → (P g → P g')
      → All P (xs ++ g ∷ ys)
      → All P (xs ++ g' ∷ ys)
  All-replace g' [] ys f h = (f h.0, h.1)
  All-replace g' (x ∷ xs) ys f h = (h.0, All-replace g' xs ys f h.1)

  pub All-middle : (xs ys : List Goroutine) → All P (xs ++ g ∷ ys) → P g
  All-middle [] ys h = h.0
  All-middle (x ∷ xs) ys h = All-middle xs ys h.1

occurrences : ℕ → List ℕ → ℕ
occurrences i [] = 0
occurrences i (x ∷ xs) = one_if (x == i) + occurrences i xs

occurrences-append :
    (i : ℕ) (xs ys : List ℕ) → occurrences i (xs ++ ys) ≡ occurrences i xs + occurrences i ys
unfolding occurrences
occurrences-append i [] ys = omega arith
occurrences-append i (x ∷ xs) ys = omega (arith, occurrences-append i xs ys)

occurrences_absent : (i : ℕ) (xs : List ℕ) → ¬ Mem i xs → occurrences i xs ≡ 0
unfolding occurrences
occurrences_absent i [] h = refl
occurrences_absent i (x ∷ xs) h = elim (Bool-cases (x == i)) [
  | inl t ↦
      let same : x ≡ i = ground arith in
      absurd (h (subst (λ y. Mem i (y ∷ xs)) (sym same) mem-cons_self))
  | inr f ↦ omega (arith, ap one_if f, occurrences_absent i xs (λ m. h (mem-cons_of_mem x m)))
]

Nodup-occurrences : (i : ℕ) (xs : List ℕ) → Nodup xs → occurrences i xs ≤ 1
unfolding occurrences
Nodup-occurrences i [] h = omega arith
Nodup-occurrences i (x ∷ xs) h = elim (Bool-cases (x == i)) [
  | inl t ↦
      let same : x ≡ i = ground arith in
      let fresh = subst (λ y. ¬ Mem y xs) same (Nodup-cons.0 h).0 in
      omega (arith, ap one_if t, occurrences_absent i xs fresh)
  | inr f ↦ omega (arith, ap one_if f, Nodup-occurrences i xs (Nodup-cons.0 h).1)
]

IsHeld-occurrences :
    (app i : ℕ) (p : Pool) (out : List ℕ) → IsHeld app p out → occurrences i out ≤ 1
unfolding occurrences
IsHeld-occurrences app i p out (inl (l, o)) = omega (arith, ap (occurrences i) o)
IsHeld-occurrences app i p out (inr (apool, l, perm)) =
    let distinct = Perm.nodup (Perm.symm perm) (positions_from-Nodup 0 apool.signers) in
    omega
      (arith, Nodup-occurrences i (apool.idle ++ out) distinct, occurrences-append i apool.idle out)

holder-reserves : (r : SignerRef) (g : Goroutine) → reserves r g ≡ true → holder g ≡ some r
holder-reserves r (entering s i) t = cc
holder-reserves r (loading s i request) t = cc
holder-reserves r (installing s i request signers) t = cc
holder-reserves r (waiting s i request) t = cc
holder-reserves r (lent s i request ref) t = cc
holder-reserves r (rejecting s request held x) t = cc
holder-reserves r (priced s i request ref gas price) t = cc
holder-reserves r (reserved s i request ref gas price nonce) t = ap some (same_ref-eq ref r t)
holder-reserves r (recording s request ref x nonce price) t = ap some (same_ref-eq ref r t)
holder-reserves r (sending s request attempt ref x) t = ap some (same_ref-eq ref r t)
holder-reserves r (rewinding ref m x) t = ap some (same_ref-eq ref r t)
holder-reserves r (failing s attempt ref x) t = cc
holder-reserves r (accepted s request attempt ref x) t = cc
holder-reserves r (notifying s request ref x) t = cc
holder-reserves r (releasing ref x) t = cc
holder-reserves r (returned x) t = cc

pub position_self : (r : SignerRef) → position r.app_id (some r) ≡ r.index ∷ []
position_self r = ground arith

reserves-occurrences :
    (r : SignerRef) (g : Goroutine)
    → one_if (reserves r g) ≤ occurrences r.index (position r.app_id (holder g))
unfolding occurrences
reserves-occurrences r g = elim (Bool-cases (reserves r g)) [
  | inr f ↦ omega (arith, ap one_if f)
  | inl t ↦
      let there = ap (position r.app_id) (holder-reserves r g t) ∙ position_self r in
      let own : one_if (r.index == r.index) ≡ 1 = ground arith in
      omega (arith, ap one_if t, ap (occurrences r.index) there, own)
]

reservations-occurrences :
    (r : SignerRef) (gs : List Goroutine)
    → reservations r gs ≤ occurrences r.index (held_of r.app_id gs)
reservations-occurrences r [] = omega arith
reservations-occurrences r (g ∷ gs) = omega (
  arith,
  reserves-occurrences r g,
  reservations-occurrences r gs,
  occurrences-append r.index (position r.app_id (holder g)) (held_of r.app_id gs),
)

pub IsLawful-reservations :
    (P : Service → Type 0) (r : SignerRef) (a : System)
    → IsLawful P r.app_id a
    → reservations r a.running ≤ 1
IsLawful-reservations P r a h = omega (
  arith,
  reservations-occurrences r a.running,
  IsHeld-occurrences r.app_id r.index a.world.pool (held_of r.app_id a.running) h,
)
