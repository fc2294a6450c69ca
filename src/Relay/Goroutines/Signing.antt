-- ===== src/Relay/Goroutines/Signing.antt =====
-- internal/relay/service.go: each step of `Submit` is one of the moves of a signer's nonces.
use txmill.Base.{
  ℕ, ◌≡◌, refl, sym, ap, subst, ◌∙◌, inl, inr, true, false, [], ◌∷◌, ◌++◌, Option, none, some,
  Error, wrap, arith, Option-cases, Result-cases, Bool-cases,
}
use txmill.Signer.{Signer, use_nonce, rewind_nonce}
use txmill.Signer.Pool.{Pool, SignerRef, deref, store}
use txmill.Signer.Cells.{same_ref, deref-store_self, deref-store_ne}
use txmill.Relay.Chain.{Signed, KeepsReplies}
use txmill.Relay.Service.{Service, SubmitInput, World, transaction_for, insert_attempt}
use txmill.Relay.Effects.{SignsIts}
use txmill.Relay.Nonces.{nonces_by, nonces_by-append, same_ref-eq}
use txmill.Relay.Goroutines.{
  Goroutine, priced, reserved, recording, sending, rewinding, accepted, advance, leave,
  after_rewind,
}
use txmill.Relay.Goroutines.Moves.{
  reserves, IsStamped, Move, reserve, rewind, send, unreserved-IsStamped, bystander, onward,
}

-- What a write to the signer `r`, named `ref`, finds and leaves.
store_own :
    (r ref : SignerRef) (p : Pool) (sig v : Signer)
    → same_ref ref r ≡ true
    → deref p ref ≡ some sig
    → (deref p r ≡ some sig) × (deref (store p ref v) r ≡ some v)
store_own r ref p sig v same l =
    let own = same_ref-eq ref r same in
    (
      subst (λ x. deref p x ≡ some sig) own l,
      subst (λ x. deref (store p ref v) x ≡ some v) own (deref-store_self p ref v l),
    )

pub reserves-leave :
    (r : SignerRef) (held : Option SignerRef) (e : Error) → reserves r (leave held e) ≡ false
reserves-leave r none e = refl
reserves-leave r (some ref) e = refl

reserves-after_rewind :
    (r ref : SignerRef) (e : Error) (m : Option (Service × ℕ))
    → reserves r (after_rewind ref e m) ≡ false
reserves-after_rewind r ref e none = refl
reserves-after_rewind r ref e (some (s, attempt)) = refl

module _ (r : SignerRef) where
  pub priced-Move :
      (s : Service) (i : SubmitInput) (request : ℕ) (ref : SignerRef) (gas price : ℕ)
      (g' : Goroutine) (w w' : World)
      → advance (priced s i request ref gas price) w ≡ some (g', w')
      → Move r (priced s i request ref gas price) g' w w'
  unfolding advance
  priced-Move s i request ref gas price g' w w' e = elim (Option-cases (deref w.pool ref)) [
    | inl lost ↦ absurd (ground arith)
    | inr (sig, l) ↦
        let sent : w'.sent ≡ w.sent = ground arith in
        let pool : w'.pool ≡ store w.pool ref (use_nonce sig).1 = ground arith in
        let is : reserved s i request ref gas price (use_nonce sig).0 ≡ g' = ground arith in
        elim (Bool-cases (same_ref ref r)) [
          | inr other ↦
              bystander r _ g' w w' (ap (nonces_by r) sent)
                (λ v h. ap (λ q. deref q r) pool ∙ deref-store_ne w.pool ref r _ other ∙ h) refl
                (ap (reserves r) (sym is) ∙ other)
          | inl same ↦
              let (was, is_now) = store_own r ref w.pool sig (use_nonce sig).1 same l in
              reserve sig (ap (nonces_by r) sent) was (ap (λ q. deref q r) pool ∙ is_now) refl
                (ap (reserves r) (sym is) ∙ same)
                (subst (IsStamped r (use_nonce sig).0) is λ t. refl)
        ]
  ]

  pub rewinding-Move :
      (ref : SignerRef) (m : Option (Service × ℕ)) (x : Error) (g' : Goroutine) (w w' : World)
      → advance (rewinding ref m x) w ≡ some (g', w')
      → Move r (rewinding ref m x) g' w w'
  unfolding advance
  rewinding-Move ref m x g' w w' e = elim (Option-cases (deref w.pool ref)) [
    | inl lost ↦ absurd (ground arith)
    | inr (sig, l) ↦
        let sent : w'.sent ≡ w.sent = ground arith in
        let pool : w'.pool ≡ store w.pool ref (rewind_nonce sig) = ground arith in
        let is : after_rewind ref x m ≡ g' = ground arith in
        let freed : reserves r g' ≡ false =
          ap (reserves r) (sym is) ∙ reserves-after_rewind r ref x m in
        elim (Bool-cases (same_ref ref r)) [
          | inr other ↦
              bystander r _ g' w w' (ap (nonces_by r) sent)
                (λ v h. ap (λ q. deref q r) pool ∙ deref-store_ne w.pool ref r _ other ∙ h) other
                freed
          | inl same ↦
              let (was, is_now) = store_own r ref w.pool sig (rewind_nonce sig) same l in
              rewind sig (ap (nonces_by r) sent) was (ap (λ q. deref q r) pool ∙ is_now) same freed
                (λ n. unreserved-IsStamped r n g' freed)
        ]
  ]

  pub reserved-Move :
      (s : Service) (i : SubmitInput) (request : ℕ) (ref : SignerRef) (gas price nonce : ℕ)
      (g' : Goroutine) (w w' : World)
      → SignsIts s.sign_tx
      → advance (reserved s i request ref gas price nonce) w ≡ some (g', w')
      → Move r (reserved s i request ref gas price nonce) g' w w'
  unfolding advance
  reserved-Move s i request ref gas price nonce g' w w' signs e =
      elim (Option-cases (deref w.pool ref)) [
        | inl lost ↦ absurd (ground arith)
        | inr (sig, l) ↦
            let tx = transaction_for i nonce gas price in
            let sent : w'.sent ≡ w.sent = ground arith in
            let pool : w'.pool ≡ w.pool = ground arith in
            elim (Result-cases (s.sign_tx s.chain.chain_id tx sig.key)) [
              | inl (x, failed) ↦
                  onward r _ g' w w' (rewinding ref none (wrap "sign" x)) (ground arith) sent pool
                    refl λ n t. tt
              | inr (x, done) ↦
                  let its : x.tx ≡ tx = signs s.chain.chain_id tx sig.key x done in
                  onward r _ g' w w' (recording s request ref x nonce price) (ground arith) sent
                    pool refl λ n t same. ap (λ y. y.nonce) its ∙ t same
            ]
      ]

  pub recording-Move :
      (s : Service) (request : ℕ) (ref : SignerRef) (x : Signed) (nonce price : ℕ) (g' : Goroutine)
      (w w' : World)
      → advance (recording s request ref x nonce price) w ≡ some (g', w')
      → Move r (recording s request ref x nonce price) g' w w'
  unfolding advance
  recording-Move s request ref x nonce price g' w w' e = elim (Option-cases (deref w.pool ref)) [
    | inl lost ↦ absurd (ground arith)
    | inr (sig, l) ↦
        let sent : w'.sent ≡ w.sent = ground arith in
        let pool : w'.pool ≡ w.pool = ground arith in
        let row = insert_attempt s.pg request sig.address nonce x.hash price w.db in
        elim (Result-cases row.0) [
          | inl (y, failed) ↦
              onward r _ g' w w' (rewinding ref none (wrap "insert attempt" y)) (ground arith) sent
                pool refl λ n t. tt
          | inr (attempt, done) ↦
              onward r _ g' w w' (sending s request attempt ref x) (ground arith) sent pool refl
                λ n t. t
        ]
  ]

  pub sending-Move :
      (s : Service) (request attempt : ℕ) (ref : SignerRef) (x : Signed) (g' : Goroutine)
      (w w' : World)
      → KeepsReplies s.chain
      → advance (sending s request attempt ref x) w ≡ some (g', w')
      → Move r (sending s request attempt ref x) g' w w'
  unfolding advance
  sending-Move s request attempt ref x g' w w' keeps e =
      elim (Option-cases (s.chain.send_transaction x)) [
        | inr (y, failed) ↦
            let sent : w'.sent ≡ w.sent = ground (arith, keeps x y failed) in
            let pool : w'.pool ≡ w.pool = ground arith in
            onward r _ g' w w' (rewinding ref (some (s, attempt)) (wrap "submit" y)) (ground arith)
              sent pool refl λ n t. tt
        | inl taken ↦
            let sent : w'.sent ≡ w.sent ++ record { by = ref; signed = x } ∷ [] = ground arith in
            let pool : w'.pool ≡ w.pool = ground arith in
            let is : accepted s request attempt ref x ≡ g' = ground arith in
            let more = nonces_by-append r w.sent (record { by = ref; signed = x }) in
            elim (Bool-cases (same_ref ref r)) [
              | inr other ↦
                  bystander r _ g' w w' (ap (nonces_by r) sent ∙ ground (arith, more, other))
                    (λ v h. ap (λ q. deref q r) pool ∙ h) other (ap (reserves r) (sym is))
              | inl same ↦
                  send x.tx.nonce (ap (nonces_by r) sent ∙ ground (arith, more, same))
                    (ap (λ q. deref q r) pool) (λ n t. t same) same (ap (reserves r) (sym is))
                    (λ n. subst (IsStamped r n) is tt)
            ]
      ]
