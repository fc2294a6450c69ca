-- ===== src/Relay/Goroutines/Moves.antt =====
-- internal/relay/service.go: what each step of `Submit` does to one signer's nonces.
use txmill.Base.{ℕ, ◌≡◌, sym, ap, subst, ◌∙◌, Bool, true, false, [], ◌∷◌, ◌++◌, Option, none, some}
use txmill.Signer.{Signer, use_nonce, rewind_nonce}
use txmill.Signer.Pool.{SignerRef, deref}
use txmill.Signer.Cells.{same_ref}
use txmill.Relay.Service.{Service, World}
use txmill.Relay.Nonces.{nonces_by}
use txmill.Relay.Goroutines.{
  Goroutine, entering, loading, installing, waiting, lent, rejecting, priced, reserved, recording,
  sending, rewinding, failing, accepted, notifying, releasing, returned,
}

-- Whether a goroutine has reserved a nonce of `r` that is neither on the chain nor given back.
abbrev pub reserves : SignerRef → Goroutine → Bool
reserves r (reserved s i request ref gas price nonce) = same_ref ref r
reserves r (recording s request ref x nonce price) = same_ref ref r
reserves r (sending s request attempt ref x) = same_ref ref r
reserves r (rewinding ref then_mark e) = same_ref ref r
reserves r _ = false

-- The nonce that a goroutine has reserved and may still send for `r` is `n`.
abbrev pub IsStamped : SignerRef → ℕ → Goroutine → Type 0
IsStamped r n (reserved s i request ref gas price nonce) = same_ref ref r ≡ true → nonce ≡ n
IsStamped r n (recording s request ref x nonce price) = same_ref ref r ≡ true → x.tx.nonce ≡ n
IsStamped r n (sending s request attempt ref x) = same_ref ref r ≡ true → x.tx.nonce ≡ n
IsStamped r n _ = Unit

-- The surroundings of a call that has not sent its transaction yet.
abbrev pub service_of : Goroutine → Option Service
service_of (entering s i) = some s
service_of (loading s i request) = some s
service_of (installing s i request signers) = some s
service_of (waiting s i request) = some s
service_of (lent s i request ref) = some s
service_of (priced s i request ref gas price) = some s
service_of (reserved s i request ref gas price nonce) = some s
service_of (recording s request ref x nonce price) = some s
service_of (sending s request attempt ref x) = some s
service_of _ = none

-- `P` holds of the surroundings in which a goroutine is going to sign and to send.
abbrev pub Meets : (Service → Type 0) → Goroutine → Type 0
Meets P g = (s : Service) → service_of g ≡ some s → P s

-- From `g` in `w` to `g'` in `w'`: nothing that concerns the signer `r`, except that it may come into
-- memory; a reservation of its next nonce; a rewind of one; or the acceptance of a transaction.
pub data Move (r : SignerRef) (g g' : Goroutine) (w w' : World) : Type 0 where
  quiet :
      nonces_by r w'.sent ≡ nonces_by r w.sent
      → ((v : Signer) → deref w.pool r ≡ some v → deref w'.pool r ≡ some v)
      → reserves r g' ≡ reserves r g
      → ((n : ℕ) → IsStamped r n g → IsStamped r n g')
      → Move r g g' w w'
  reserve :
      (sig : Signer)
      → nonces_by r w'.sent ≡ nonces_by r w.sent
      → deref w.pool r ≡ some sig
      → deref w'.pool r ≡ some (use_nonce sig).1
      → reserves r g ≡ false
      → reserves r g' ≡ true
      → IsStamped r (use_nonce sig).0 g'
      → Move r g g' w w'
  rewind :
      (sig : Signer)
      → nonces_by r w'.sent ≡ nonces_by r w.sent
      → deref w.pool r ≡ some sig
      → deref w'.pool r ≡ some (rewind_nonce sig)
      → reserves r g ≡ true
      → reserves r g' ≡ false
      → ((n : ℕ) → IsStamped r n g')
      → Move r g g' w w'
  send :
      (m : ℕ)
      → nonces_by r w'.sent ≡ nonces_by r w.sent ++ m ∷ []
      → deref w'.pool r ≡ deref w.pool r
      → ((n : ℕ) → IsStamped r n g → m ≡ n)
      → reserves r g ≡ true
      → reserves r g' ≡ false
      → ((n : ℕ) → IsStamped r n g')
      → Move r g g' w w'

pub unreserved-IsStamped :
    (r : SignerRef) (n : ℕ) (g : Goroutine) → reserves r g ≡ false → IsStamped r n g
unreserved-IsStamped r n (reserved s i request ref gas price nonce) f = λ t. absurd cc
unreserved-IsStamped r n (recording s request ref x nonce price) f = λ t. absurd cc
unreserved-IsStamped r n (sending s request attempt ref x) f = λ t. absurd cc
unreserved-IsStamped r n (entering s i) f = tt
unreserved-IsStamped r n (loading s i request) f = tt
unreserved-IsStamped r n (installing s i request signers) f = tt
unreserved-IsStamped r n (waiting s i request) f = tt
unreserved-IsStamped r n (lent s i request ref) f = tt
unreserved-IsStamped r n (rejecting s request held e) f = tt
unreserved-IsStamped r n (priced s i request ref gas price) f = tt
unreserved-IsStamped r n (rewinding ref then_mark e) f = tt
unreserved-IsStamped r n (failing s attempt ref e) f = tt
unreserved-IsStamped r n (accepted s request attempt ref x) f = tt
unreserved-IsStamped r n (notifying s request ref x) f = tt
unreserved-IsStamped r n (releasing ref x) f = tt
unreserved-IsStamped r n (returned x) f = tt

module _ (r : SignerRef) (g g' : Goroutine) (w w' : World) where
  pub bystander :
      nonces_by r w'.sent ≡ nonces_by r w.sent
      → ((v : Signer) → deref w.pool r ≡ some v → deref w'.pool r ≡ some v)
      → reserves r g ≡ false
      → reserves r g' ≡ false
      → Move r g g' w w'
  bystander e d f f' = quiet e d (f' ∙ sym f) λ n t. unreserved-IsStamped r n g' f'

  -- A step that leaves the pool and the chain alone.
  pub aside :
      w'.sent ≡ w.sent
      → w'.pool ≡ w.pool
      → reserves r g ≡ false
      → reserves r g' ≡ false
      → Move r g g' w w'
  aside e p f f' = bystander (ap (nonces_by r) e) (λ v h. ap (λ q. deref q r) p ∙ h) f f'

  -- A step to `k` that leaves them alone and keeps the reservation.
  pub onward :
      (k : Goroutine)
      → k ≡ g'
      → w'.sent ≡ w.sent
      → w'.pool ≡ w.pool
      → reserves r k ≡ reserves r g
      → ((n : ℕ) → IsStamped r n g → IsStamped r n k)
      → Move r g g' w w'
  onward k is e p f t =
      quiet (ap (nonces_by r) e) (λ v h. ap (λ q. deref q r) p ∙ h) (ap (reserves r) (sym is) ∙ f)
        λ n h. subst (IsStamped r n) is (t n h)
