-- ===== src/Gas/Refills.antt =====
-- internal/gas/worker.go: which transactions the loop over an app's signers sends, and what keeps a
-- signer from a second top-up.
use mathlib.Core.List.{Mem}
use txmill.Base.{
  ℕ, ◌+◌, ◌<◌, ◌≡◌, ◌⊎◌, some, err, Error, ltb_ℤ, pos, true, false, List, [], ◌∷◌, ◌++◌, none, ok,
  arith, inl, inr, Option-cases,
}
use txmill.Store.{Db, GasAttempt, insert_gas_attempt, recent_topup}
use txmill.Relay.Chain.{Signed, Tx}
use txmill.Relay.Effects.{SignsIts}
use txmill.Gas.Worker.{
  AppPolicy, Worker, GasWorld, topup_for, refill, refill_all, needs_refill, has_recent_topup,
  insert_row, new_gas_attempt, any_recent, is_recent, has_gas_hash,
}

-- Why a signer gets no top-up: one of the last minute that has not failed, a balance that is not
-- below the policy's minimum, or an error of either check.
abbrev pub Unneeded : Worker → AppPolicy → ℕ → Db → Type 0
Unneeded w p s d =
    ((e : Error) × (w.pg.failure (recent_topup s) ≡ some e))
    ⊎ ((a : GasAttempt) × Mem a d.gas_attempts
        × (a.signer_address ≡ s)
        × (w.pg.now < a.submitted_at + 60000))
    ⊎ ((e : Error) × (w.balance_at s ≡ err e))
    ⊎ ((b : ℕ) × (w.balance_at s ≡ ok b) × (ltb_ℤ (pos b) p.signer_min_balance ≡ false))

-- The top-up of a signer: the refill amount of the policy, to that signer, with 21000 of gas.
pub record IsTopup (p : AppPolicy) (price n s : ℕ) (tx : Tx) : Type 0 where
  pub to : tx.to ≡ s
  pub value : tx.value ≡ p.signer_refill_amount
  pub nonce : tx.nonce ≡ n
  pub gas_price : tx.gas_price ≡ price
  pub gas_limit : tx.gas_limit ≡ 21000

-- One signer after another, from a nonce on: one that needs no top-up is left out; one whose top-up
-- could not be signed or was refused leaves the nonce to the next; and one whose balance is below the
-- minimum got its top-up with that nonce.
pub data Topups (w : Worker) (p : AppPolicy) (key price : ℕ)
    : ℕ → List ℕ → GasWorld → List Signed → Type 0 where
  done : {n : ℕ} {g : GasWorld} → Topups w p key price n [] g []
  unneeded :
      {n s : ℕ} {rest : List ℕ} {g : GasWorld} {xs : List Signed}
      → Unneeded w p s g.db
      → Topups w p key price n rest g xs
      → Topups w p key price n (s ∷ rest) g xs
  not_signed :
      {n s : ℕ} {rest : List ℕ} {g : GasWorld} {xs : List Signed} {tx : Tx} {e : Error}
      → IsTopup p price n s tx
      → w.sign_tx w.chain_id tx key ≡ err e
      → Topups w p key price n rest g xs
      → Topups w p key price n (s ∷ rest) g xs
  not_taken :
      {n s : ℕ} {rest : List ℕ} {g : GasWorld} {xs : List Signed} {x : Signed} {e : Error}
      → IsTopup p price n s x.tx
      → w.send_transaction x ≡ some e
      → Topups w p key price n rest g xs
      → Topups w p key price n (s ∷ rest) g xs
  topped_up :
      {n s b : ℕ} {rest : List ℕ} {g : GasWorld} {x : Signed} {xs : List Signed}
      → w.balance_at s ≡ ok b
      → ltb_ℤ (pos b) p.signer_min_balance ≡ true
      → IsTopup p price n s x.tx
      → w.send_transaction x ≡ none
      → Topups w p key price (n + 1) rest (refill w p key n price s g).1 xs
      → Topups w p key price n (s ∷ rest) g (x ∷ xs)

module _ (w : Worker) (p : AppPolicy) (key price : ℕ) (signs : SignsIts w.sign_tx) where
  abbrev pub Sends : ℕ → List ℕ → GasWorld → Type 0
  Sends nonce signers g =
      (xs : List Signed) × ((refill_all w p key price nonce signers g).sent ≡ g.sent ++ xs)
      × Topups w p key price nonce signers g xs

any_recent-append :
    (now signer : ℕ) (xs : List GasAttempt) (a : GasAttempt)
    → is_recent now signer a ≡ true
    → any_recent now signer (xs ++ a ∷ []) ≡ true
any_recent-append now signer [] a h = ground arith
any_recent-append now signer (x ∷ xs) a h = ground (arith, any_recent-append now signer xs a h)

-- After a top-up that was sent and whose row was stored, the signer needs no refill at any database
-- time before 60 seconds have passed, whatever its balance and the policy are by then. The row is
-- stored if the database takes it and the hash is new.
pub refill_guards :
    (w w' : Worker) (p p' : AppPolicy) (key nonce price signer : ℕ) (g : GasWorld) (x : Signed)
    → w.sign_tx w.chain_id (topup_for p nonce price signer) key ≡ ok x
    → (refill w p key nonce price signer g).0 ≡ true
    → w.pg.failure (insert_gas_attempt signer) ≡ none
    → has_gas_hash x.hash g.db.gas_attempts ≡ false
    → w'.pg.now < w.pg.now + 60000
    → needs_refill w' p' signer (refill w p key nonce price signer g).1.db ≡ false
unfolding refill needs_refill has_recent_topup insert_row
refill_guards w w' p p' key nonce price signer g x signed sent works new soon =
    let row = new_gas_attempt w p nonce price signer x in
    let recent = any_recent-append w'.pg.now signer g.db.gas_attempts row (ground arith) in
    elim (Option-cases (w.send_transaction x)) [
      | inr (e, refused) ↦ absurd (ground arith)
      | inl accepted ↦ elim (Option-cases (w'.pg.failure (recent_topup signer))) [
        | inr (e, fails) ↦ ground arith
        | inl reads ↦ ground (arith, recent)
      ]
    ]
