-- ===== src/Relay/Goroutines/Advances.antt =====
-- internal/relay/service.go: every step of `Submit` is one of the moves of a signer's nonces.
use txmill.Base.{
  ℕ, ◌≡◌, refl, ap, subst, ◌∙◌, inl, inr, Option, none, some, Error, arith, Option-cases,
}
use txmill.Signer.Pool.{install, SignerRef, checkout, release, deref}
use txmill.Signer.Cells.{deref-install, deref-checkout, deref-release}
use txmill.Relay.Chain.{KeepsReplies}
use txmill.Relay.Service.{Service, World}
use txmill.Relay.Effects.{SignsIts}
use txmill.Relay.Nonces.{nonces_by}
use txmill.Relay.Goroutines.{
  Goroutine, entering, loading, installing, waiting, lent, rejecting, priced, reserved, recording,
  sending, rewinding, failing, accepted, notifying, releasing, returned, advance, leave,
  after_rewind,
}
use txmill.Relay.Goroutines.Moves.{Meets, service_of, Move, bystander, aside}
use txmill.Relay.Goroutines.Signing.{
  reserves-leave, priced-Move, rewinding-Move, reserved-Move, recording-Move, sending-Move,
}

module _ (r : SignerRef) (P : Service → Type 0)
    (faithful : (s : Service) → P s → SignsIts s.sign_tx × KeepsReplies s.chain) where
  pub advance-Move :
      (g g' : Goroutine) (w w' : World) → Meets P g → advance g w ≡ some (g', w') → Move r g g' w w'
  unfolding advance
  advance-Move (entering s i) g' w w' u e =
      aside r _ g' w w' (ground arith) (ground arith) refl (ground arith)
  advance-Move (loading s i request) g' w w' u e =
      aside r _ g' w w' (ground arith) (ground arith) refl (ground arith)
  advance-Move (installing s i request signers) g' w w' u e =
      let pool : w'.pool ≡ install w.pool i.app_id signers = ground arith in
      bystander r _ g' w w' (ap (nonces_by r) (ground arith))
        (λ v h. ap (λ q. deref q r) pool ∙ deref-install w.pool i.app_id signers r h) refl
        (ground arith)
  advance-Move (waiting s i request) g' w w' u e =
      elim (Option-cases (checkout w.pool i.app_id s.cancelled)) [
        | inl blocked ↦ absurd (ground arith)
        | inr ((x, p), c) ↦
            let pool : w'.pool ≡ p = ground arith in
            bystander r _ g' w w' (ap (nonces_by r) (ground arith))
              (λ v h.
                ap (λ q. deref q r) pool ∙ deref-checkout w.pool p i.app_id s.cancelled r c ∙ h)
              refl (ground arith)
      ]
  advance-Move (lent s i request ref) g' w w' u e =
      aside r _ g' w w' (ground arith) (ground arith) refl (ground arith)
  advance-Move (rejecting s request held x) g' w w' u e =
      aside r _ g' w w' (ground arith) (ground arith) refl (ground (arith, reserves-leave r held x))
  advance-Move (priced s i request ref gas price) g' w w' u e =
      priced-Move r s i request ref gas price g' w w' e
  advance-Move (reserved s i request ref gas price nonce) g' w w' u e =
      reserved-Move r s i request ref gas price nonce g' w w' (faithful s (u s refl)).0 e
  advance-Move (recording s request ref x nonce price) g' w w' u e =
      recording-Move r s request ref x nonce price g' w w' e
  advance-Move (sending s request attempt ref x) g' w w' u e =
      sending-Move r s request attempt ref x g' w w' (faithful s (u s refl)).1 e
  advance-Move (rewinding ref m x) g' w w' u e = rewinding-Move r ref m x g' w w' e
  advance-Move (failing s attempt ref x) g' w w' u e =
      aside r _ g' w w' (ground arith) (ground arith) refl (ground arith)
  advance-Move (accepted s request attempt ref x) g' w w' u e =
      aside r _ g' w w' (ground arith) (ground arith) refl (ground arith)
  advance-Move (notifying s request ref x) g' w w' u e =
      aside r _ g' w w' (ground arith) (ground arith) refl (ground arith)
  advance-Move (releasing ref x) g' w w' u e = elim (Option-cases (release w.pool ref)) [
    | inl blocked ↦ absurd (ground arith)
    | inr (p, c) ↦
        let pool : w'.pool ≡ p = ground arith in
        bystander r _ g' w w' (ap (nonces_by r) (ground arith))
          (λ v h. ap (λ q. deref q r) pool ∙ deref-release w.pool p ref r c ∙ h) refl (ground arith)
  ]
  advance-Move (returned x) g' w w' u e = absurd (ground arith)

service_of-leave : (held : Option SignerRef) (e : Error) → service_of (leave held e) ≡ none
service_of-leave none e = refl
service_of-leave (some ref) e = refl

service_of-after_rewind :
    (ref : SignerRef) (e : Error) (m : Option (Service × ℕ))
    → service_of (after_rewind ref e m) ≡ none
service_of-after_rewind ref e none = refl
service_of-after_rewind ref e (some (s, attempt)) = refl

pub Meets_same : (P : Service → Type 0) (s f : Service) → P s → s ≡ f → P f
Meets_same P s f h e = subst P e h

pub advance-Meets :
    (P : Service → Type 0) (g g' : Goroutine) (w w' : World)
    → Meets P g
    → advance g w ≡ some (g', w')
    → Meets P g'
unfolding advance
advance-Meets P (entering s i) g' w w' u e f h = Meets_same P s f (u s refl) (ground arith)
advance-Meets P (loading s i request) g' w w' u e f h = Meets_same P s f (u s refl) (ground arith)
advance-Meets P (installing s i request signers) g' w w' u e f h =
    Meets_same P s f (u s refl) (ground arith)
advance-Meets P (waiting s i request) g' w w' u e f h = Meets_same P s f (u s refl) (ground arith)
advance-Meets P (lent s i request ref) g' w w' u e f h = Meets_same P s f (u s refl) (ground arith)
advance-Meets P (rejecting s request held x) g' w w' u e f h =
    ground (arith, service_of-leave held x)
advance-Meets P (priced s i request ref gas price) g' w w' u e f h =
    Meets_same P s f (u s refl) (ground arith)
advance-Meets P (reserved s i request ref gas price nonce) g' w w' u e f h =
    Meets_same P s f (u s refl) (ground arith)
advance-Meets P (recording s request ref x nonce price) g' w w' u e f h =
    Meets_same P s f (u s refl) (ground arith)
advance-Meets P (sending s request attempt ref x) g' w w' u e f h = ground arith
advance-Meets P (rewinding ref m x) g' w w' u e f h =
    ground (arith, service_of-after_rewind ref x m)
advance-Meets P (failing s attempt ref x) g' w w' u e f h = ground arith
advance-Meets P (accepted s request attempt ref x) g' w w' u e f h = ground arith
advance-Meets P (notifying s request ref x) g' w w' u e f h = ground arith
advance-Meets P (releasing ref x) g' w w' u e f h = ground arith
advance-Meets P (returned x) g' w w' u e f h = ground arith
