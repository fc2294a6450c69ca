-- ===== src/Relay/Goroutines/Endings.antt =====
-- internal/relay/service.go: how a goroutine with a reserved nonce ends `Submit`, when it runs alone.
use txmill.Base.{
  ℕ, zero, suc, ◌≡◌, refl, ap, ◌∙◌, [], ◌∷◌, ◌++◌, inl, inr, Option, none, some, Result, ok, err,
  Error, wrap, arith, Option-cases, Result-cases,
}
use txmill.Store.{AttemptStatus}
use txmill.Signer.{Signer, rewind_nonce}
use txmill.Signer.Pool.{SignerRef, release, deref}
use txmill.Relay.Chain.{Signed}
use txmill.Relay.Service.{
  Service, SubmitInput, SubmitResult, World, insert_attempt, record_attempt, broadcast,
  mark_attempt_status, mark_submitted, fire_webhook, transaction_for, write_signer, finish,
  despite_error,
}
use txmill.Relay.Goroutines.{
  Goroutine, reserved, recording, sending, rewinding, failing, accepted, notifying, releasing,
  returned, advance,
}

-- At most `k` steps, with nobody else at work.
unfoldable pub alone : ℕ → Goroutine → World → Goroutine × World
alone zero g w = (g, w)
alone (suc k) g w = elim (advance g w) [ none ↦ (g, w) | some (g', w') ↦ alone k g' w' ]

-- What the call has returned by then, if it has.
abbrev pub outcome : Goroutine × World → Option (Result SubmitResult) × World
outcome (returned r, w) = (some r, w)
outcome (_, w) = (none, w)

-- `n` successors, at least.
abbrev pub more : ℕ → ℕ → ℕ
more zero k = k
more (suc n) k = suc (more n k)

pub alone-returned :
    (k : ℕ) (r : Result SubmitResult) (w : World) → alone k (returned r) w ≡ (returned r, w)
unfolding alone advance
alone-returned zero r w = refl
alone-returned (suc k) r w = refl

-- One step, and the rest of the fuel.
pub outcome-next :
    (k : ℕ) (g : Goroutine) (w : World) (g' : Goroutine) (w' : World)
    → advance g w ≡ some (g', w')
    → outcome (alone (suc k) g w) ≡ outcome (alone k g' w')
unfolding alone
outcome-next k g w g' w' e = rw (e, alone) refl

pub outcome-blocked :
    (k : ℕ) (g : Goroutine) (w : World)
    → advance g w ≡ none
    → outcome (alone k g w) ≡ outcome (g, w)
unfolding alone
outcome-blocked zero g w e = refl
outcome-blocked (suc k) g w e = rw (e, alone) refl

pub releasing_lem :
    (k : ℕ) (ref : SignerRef) (r : Result SubmitResult) (w : World)
    → outcome (alone (more 1 k) (releasing ref r) w) ≡ finish ref (r, w)
unfolding alone advance
releasing_lem k ref r w = elim (Option-cases (release w.pool ref)) [
  | inl blocked ↦ ground arith
  | inr (p, done) ↦ ground (arith, alone-returned k r (record w { pool = p }))
]

module _ (k : ℕ) (ref : SignerRef) (sig : Signer) (w : World)
    (l : deref w.pool ref ≡ some sig) where
  abbrev back : World
  back = write_signer ref (rewind_nonce sig) w

  rewinding_lem :
      (e : Error) → outcome (alone (more 2 k) (rewinding ref none e) w) ≡ finish ref (err e, back)
  unfolding advance
  rewinding_lem e =
      outcome-next (more 1 k) _ _ (releasing ref (err e)) back (ground arith)
      ∙ releasing_lem k ref (err e) back

  refused_lem :
      (s : Service) (attempt : ℕ) (e : Error)
      → outcome (alone (more 3 k) (rewinding ref (some (s, attempt)) e) w)
        ≡ finish ref (
          err e,
          record back { db = (mark_attempt_status s attempt AttemptStatus.failed w.db).1 },
        )
  unfolding advance
  refused_lem s attempt e =
      outcome-next (more 2 k) _ _ (failing s attempt ref e) back (ground arith)
      ∙ outcome-next (more 1 k) _ _ (releasing ref (err e)) _ refl
      ∙ releasing_lem k ref (err e) _

module _ (k : ℕ) (ref : SignerRef) (sig : Signer) (w : World)
    (l : deref w.pool ref ≡ some sig) where
  broadcast_lem :
      (s : Service) (request attempt : ℕ) (x : Signed)
      → outcome (alone (more 4 k) (sending s request attempt ref x) w)
        ≡ finish ref (broadcast s ref sig x request attempt w)
  unfolding advance broadcast
  broadcast_lem s request attempt x = elim (Option-cases (s.chain.send_transaction x)) [
    | inr (e, refused) ↦
        let y = wrap "submit" e in
        let w₁ = record w { sent = despite_error s ref x w.sent } in
        outcome-next (more 3 k) _ _ (rewinding ref (some (s, attempt)) y) w₁ (ground arith)
        ∙ refused_lem k ref sig w₁ l s attempt y
        ∙ ap (finish ref) (ground arith)
    | inl taken ↦
        let w₁ = record w { sent = w.sent ++ record { by = ref; signed = x } ∷ [] } in
        let w₂ = record w₁ { db = (mark_submitted s request attempt w.db).1 } in
        let accept : advance (sending s request attempt ref x) w
            ≡ some (accepted s request attempt ref x, w₁) =
          ground arith in
        outcome-next (more 3 k) _ _ (accepted s request attempt ref x) w₁ accept
        ∙ elim (Result-cases (mark_submitted s request attempt w.db).0) [
          | inl (e, failed) ↦
              let r = err (wrap "mark submitted" e) in
              outcome-next (more 2 k) _ _ (releasing ref r) w₂ (ground arith)
              ∙ releasing_lem (more 1 k) ref r w₂
              ∙ ap (finish ref) (ground arith)
          | inr (u, done) ↦
              let r =
                ok (record { request_id = request; tx_hash = x.hash; signer = sig.address }) in
              let w₃ = record w₂ { db = fire_webhook s.webhooks request w₂.db } in
              outcome-next (more 2 k) _ _ (notifying s request ref x) w₂ (ground arith)
              ∙ outcome-next (more 1 k) _ _ (releasing ref r) w₃ (ground arith)
              ∙ releasing_lem k ref r w₃
              ∙ ap (finish ref) (ground arith)
        ]
  ]

module _ (k : ℕ) (ref : SignerRef) (sig : Signer) (w : World)
    (l : deref w.pool ref ≡ some sig) where
  record_lem :
      (s : Service) (request : ℕ) (x : Signed) (nonce price : ℕ)
      → outcome (alone (more 5 k) (recording s request ref x nonce price) w)
        ≡ finish ref (record_attempt s ref sig x nonce price request w)
  unfolding advance record_attempt
  record_lem s request x nonce price =
      let row = insert_attempt s.pg request sig.address nonce x.hash price w.db in
      let w₁ = record w { db = row.1 } in
      elim (Result-cases row.0) [
        | inl (e, failed) ↦
            outcome-next (more 4 k) _ _ (rewinding ref none (wrap "insert attempt" e)) w₁
              (ground arith)
            ∙ rewinding_lem (more 2 k) ref sig w₁ l (wrap "insert attempt" e)
            ∙ ap (finish ref) (ground arith)
        | inr (attempt, done) ↦
            outcome-next (more 4 k) _ _ (sending s request attempt ref x) w₁ (ground arith)
            ∙ broadcast_lem k ref sig w₁ l s request attempt x
            ∙ ap (finish ref) (ground arith)
      ]

  pub sign_lem :
      (s : Service) (i : SubmitInput) (request gas price nonce : ℕ)
      → outcome (alone (more 6 k) (reserved s i request ref gas price nonce) w)
        ≡ finish ref
            (elim (s.sign_tx s.chain.chain_id (transaction_for i nonce gas price) sig.key) [
              | err e ↦ (err (wrap "sign" e), write_signer ref (rewind_nonce sig) w)
              | ok x ↦ record_attempt s ref sig x nonce price request w
            ])
  unfolding advance
  sign_lem s i request gas price nonce =
      elim (Result-cases (s.sign_tx s.chain.chain_id (transaction_for i nonce gas price) sig.key)) [
        | inl (e, failed) ↦
            outcome-next (more 5 k) _ _ (rewinding ref none (wrap "sign" e)) w (ground arith)
            ∙ rewinding_lem (more 3 k) ref sig w l (wrap "sign" e)
            ∙ ap (finish ref) (ground arith)
        | inr (x, signed) ↦
            outcome-next (more 5 k) _ _ (recording s request ref x nonce price) w (ground arith)
            ∙ record_lem s request x nonce price
            ∙ ap (finish ref) (ground arith)
      ]
