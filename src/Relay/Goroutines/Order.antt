-- ===== src/Relay/Goroutines/Order.antt =====
-- internal/relay/service.go: the nonces that a signer puts on the chain, over one step of a goroutine.
use txmill.Base.{
  ℕ, suc, ◌+◌, ◌%◌, ◌^◌, ◌≤◌, ◌≡◌, sym, ap, subst, ◌∙◌, inl, inr, List, [], ◌∷◌, ◌++◌, none, some,
  arith, Option-cases, All,
}
use txmill.Signer.{Signer, use_nonce, rewind_nonce}
use txmill.Signer.Pool.{SignerRef, deref}
use txmill.Relay.Service.{World}
use txmill.Relay.Nonces.{nonces_by}
use txmill.Relay.Goroutines.{Goroutine, System}
use txmill.Relay.Goroutines.Moves.{reserves, IsStamped, Move, quiet, reserve, rewind, send}
use txmill.Relay.Goroutines.Counting.{
  one_if, reservations, wrapped_from, wrapped_from-append, reservations-append, unreserved-All,
  All-replace, All-middle,
}

-- A signer is not in memory and has sent nothing; or it started at some nonce, has sent `count`
-- nonces from there in order, and its counter is past those and the reserved ones.
pub data IsSerial (r : SignerRef) (a : System) : Type 0 where
  unseen :
      deref a.world.pool r ≡ none
      → reservations r a.running ≡ 0
      → nonces_by r a.world.sent ≡ []
      → IsSerial r a
  serial :
      (start count : ℕ) (sig : Signer)
      → deref a.world.pool r ≡ some sig
      → sig.nonce % 2 ^ 64 ≡ (start + count + reservations r a.running) % 2 ^ 64
      → nonces_by r a.world.sent ≡ wrapped_from count start
      → All (IsStamped r ((start + count) % 2 ^ 64)) a.running
      → IsSerial r a

-- A signer that has sent nothing, with nothing reserved, starts where its counter stands.
pub fresh-IsSerial :
    (r : SignerRef) (a : System)
    → reservations r a.running ≡ 0
    → nonces_by r a.world.sent ≡ []
    → IsSerial r a
fresh-IsSerial r a none_left nothing = elim (Option-cases (deref a.world.pool r)) [
  | inl absent ↦ unseen absent none_left nothing
  | inr (v, l) ↦
      serial v.nonce 0 v l (omega (arith, none_left)) nothing
        (unreserved-All r ((v.nonce + 0) % 2 ^ 64) a.running none_left)
]

used_nonce : (sig : Signer) → (use_nonce sig).0 ≡ sig.nonce % 2 ^ 64
unfolding use_nonce
used_nonce sig = ground arith

used_next : (sig : Signer) → (use_nonce sig).1.nonce ≡ (sig.nonce + 1) % 2 ^ 64
unfolding use_nonce
used_next sig = ground arith

rewound_nonce :
    (sig : Signer) (n : ℕ)
    → sig.nonce % 2 ^ 64 ≡ (n + 1) % 2 ^ 64
    → (rewind_nonce sig).nonce % 2 ^ 64 ≡ n % 2 ^ 64
unfolding rewind_nonce
rewound_nonce sig n h = ground arith

module _ (r : SignerRef) (before after : List Goroutine) (g g' : Goroutine) (w w' : World) where
  abbrev old_state : System
  old_state = record { world = w; running = before ++ g ∷ after }

  abbrev new_state : System
  new_state = record { world = w'; running = before ++ g' ∷ after }

  abbrev rest : ℕ
  rest = reservations r before + reservations r after

  was : reservations r old_state.running ≡ rest + one_if (reserves r g)
  was = omega (arith, reservations-append r before (g ∷ after))

  will : reservations r new_state.running ≡ rest + one_if (reserves r g')
  will = omega (arith, reservations-append r before (g' ∷ after))

  module _ (bound : reservations r old_state.running ≤ 1)
      (bound' : reservations r new_state.running ≤ 1) where
    unseen-IsSerial :
        Move r g g' w w'
        → deref w.pool r ≡ none
        → reservations r old_state.running ≡ 0
        → nonces_by r w.sent ≡ []
        → IsSerial r new_state
    unseen-IsSerial (quiet e d f t) l n x =
        fresh-IsSerial r new_state (omega (arith, was, will, ap one_if f, n)) (e ∙ x)
    unseen-IsSerial (reserve sig e d d' f f' t) l n x = cc
    unseen-IsSerial (rewind sig e d d' f f' t) l n x = cc
    unseen-IsSerial (send m e d t f f' t') l n x = absurd (omega (arith, was, ap one_if f, n))

    counted-IsSerial :
        (start count : ℕ) (sig : Signer)
        → Move r g g' w w'
        → deref w.pool r ≡ some sig
        → sig.nonce % 2 ^ 64 ≡ (start + count + reservations r old_state.running) % 2 ^ 64
        → nonces_by r w.sent ≡ wrapped_from count start
        → All (IsStamped r ((start + count) % 2 ^ 64)) old_state.running
        → IsSerial r new_state
    counted-IsSerial start count sig (quiet e d f t) l n x stamped =
        let same : reservations r new_state.running ≡ reservations r old_state.running =
          omega (arith, was, will, ap one_if f) in
        serial start count sig (d sig l) (n ∙ ap (λ k. (start + count + k) % 2 ^ 64) (sym same))
          (e ∙ x)
          (All-replace (IsStamped r ((start + count) % 2 ^ 64)) g g' before after (t _) stamped)
    counted-IsSerial start count sig (reserve sig' e d d' f f' t) l n x stamped =
        let same : sig' ≡ sig = ground (arith, d, l) in
        let free : reservations r old_state.running ≡ 0 =
          omega (arith, was, will, ap one_if f, ap one_if f', bound') in
        let full : reservations r new_state.running ≡ 1 =
          omega (arith, was, will, ap one_if f, ap one_if f', free) in
        let current : sig'.nonce % 2 ^ 64 ≡ (start + count) % 2 ^ 64 =
          ap (λ v. v.nonce % 2 ^ 64) same
          ∙ n
          ∙ ap (λ k. (start + count + k) % 2 ^ 64) free
          ∙ ap (λ k. k % 2 ^ 64) (omega arith) in
        serial start count (use_nonce sig').1 d'
          (ap (λ k. k % 2 ^ 64) (used_next sig') ∙ omega (arith, current, full)) (e ∙ x)
          (All-replace (IsStamped r ((start + count) % 2 ^ 64)) g g' before after
            (λ old. subst (λ k. IsStamped r k g') (used_nonce sig' ∙ current) t) stamped)
    counted-IsSerial start count sig (rewind sig' e d d' f f' t) l n x stamped =
        let same : sig' ≡ sig = ground (arith, d, l) in
        let full : reservations r old_state.running ≡ 1 = omega (arith, was, ap one_if f, bound) in
        let free : reservations r new_state.running ≡ 0 =
          omega (arith, was, will, ap one_if f, ap one_if f', full) in
        let current : sig'.nonce % 2 ^ 64 ≡ (start + count + 1) % 2 ^ 64 =
          ap (λ v. v.nonce % 2 ^ 64) same ∙ n ∙ ap (λ k. (start + count + k) % 2 ^ 64) full in
        serial start count (rewind_nonce sig') d'
          (rewound_nonce sig' (start + count) current ∙ ap (λ k. k % 2 ^ 64) (omega (arith, free)))
          (e ∙ x)
          (All-replace (IsStamped r ((start + count) % 2 ^ 64)) g g' before after (λ old. t _)
            stamped)
    counted-IsSerial start count sig (send m e d t f f' t') l n x stamped =
        let full : reservations r old_state.running ≡ 1 = omega (arith, was, ap one_if f, bound) in
        let free : reservations r new_state.running ≡ 0 =
          omega (arith, was, will, ap one_if f, ap one_if f', full) in
        let its =
          t _ (All-middle (IsStamped r ((start + count) % 2 ^ 64)) g before after stamped) in
        serial start (suc count) sig (d ∙ l) (n ∙ ap (λ k. k % 2 ^ 64) (omega (arith, full, free)))
          (e
            ∙ ap (λ k. nonces_by r w.sent ++ k ∷ []) its
            ∙ ap (λ xs. xs ++ ((start + count) % 2 ^ 64) ∷ []) x
            ∙ wrapped_from-append count start)
          (unreserved-All r ((start + suc count) % 2 ^ 64) new_state.running free)

    pub move-IsSerial : Move r g g' w w' → IsSerial r old_state → IsSerial r new_state
    move-IsSerial m (unseen l n x) = unseen-IsSerial m l n x
    move-IsSerial m (serial start count sig l n x stamped) =
        counted-IsSerial start count sig m l n x stamped
