-- ===== src/Relay/Goroutines.antt =====
-- internal/relay/service.go: `Submit` as goroutines run it, one access to shared state at a time, with
-- the pool, the database and the chain between them.
pub mod Endings
pub mod Alone
pub mod Held
pub mod Handling
pub mod Moves
pub mod Signing
pub mod Advances
pub mod Counting
pub mod Order
pub mod Serial
pub mod Progress
pub mod Filed
pub mod Schedule
mod Tests
use txmill.Base.{
  ℕ, ◌≡◌, List, [], ◌∷◌, ◌++◌, Option, none, some, Result, ok, err, Error, wrap, lookup,
}
use txmill.Store.{AttemptStatus, Db}
use txmill.Signer.{Signer, use_nonce, rewind_nonce}
use txmill.Signer.Pool.{SignerRef, fetch, install, checkout, release, deref}
use txmill.Relay.Chain.{Signed}
use txmill.Relay.Service.{
  Service, SubmitInput, SubmitResult, World, validate, insert_request, insert_attempt,
  mark_attempt_status, mark_submitted, fire_webhook, gas_limit_for, transaction_for, reject,
  write_signer, despite_error,
}

-- Where a goroutine stands in `Submit`, with its local variables: what it does next to the state that
-- it shares with others.
pub data Goroutine : Type 0 where
  entering : Service → SubmitInput → Goroutine
  loading : Service → SubmitInput → (request : ℕ) → Goroutine
  installing : Service → SubmitInput → (request : ℕ) → List Signer → Goroutine
  waiting : Service → SubmitInput → (request : ℕ) → Goroutine
  lent : Service → SubmitInput → (request : ℕ) → SignerRef → Goroutine
  rejecting : Service → (request : ℕ) → Option SignerRef → Error → Goroutine
  priced : Service → SubmitInput → (request : ℕ) → SignerRef → (gas price : ℕ) → Goroutine
  reserved : Service → SubmitInput → (request : ℕ) → SignerRef → (gas price nonce : ℕ) → Goroutine
  recording : Service → (request : ℕ) → SignerRef → Signed → (nonce price : ℕ) → Goroutine
  sending : Service → (request attempt : ℕ) → SignerRef → Signed → Goroutine
  rewinding : SignerRef → Option (Service × ℕ) → Error → Goroutine
  failing : Service → (attempt : ℕ) → SignerRef → Error → Goroutine
  accepted : Service → (request attempt : ℕ) → SignerRef → Signed → Goroutine
  notifying : Service → (request : ℕ) → SignerRef → Signed → Goroutine
  releasing : SignerRef → Result SubmitResult → Goroutine
  returned : Result SubmitResult → Goroutine

abbrev after_insert : Service → SubmitInput → Result ℕ → Goroutine
after_insert s i (err e) = returned (err (wrap "insert request" e))
after_insert s i (ok request) = loading s i request

abbrev pub enter : Service → SubmitInput → World → Result (Unit {0}) → Goroutine × World
enter s i w (err e) = (returned (err e), w)
enter s i w (ok _) =
    let (r, d) = insert_request s.pg i w.db in (after_insert s i r, record w { db = d })

abbrev pub after_fetch : Service → SubmitInput → ℕ → Result (List Signer) → Goroutine
after_fetch s i request (err e) = rejecting s request none (wrap "load signer pool" e)
after_fetch s i request (ok signers) = installing s i request signers

abbrev pub after_checkout : Service → SubmitInput → ℕ → Result SignerRef → Goroutine
after_checkout s i request (err e) = rejecting s request none (wrap "checkout" e)
after_checkout s i request (ok ref) = lent s i request ref

-- The end of a call that failed: the deferred `Release`, where a signer is held.
abbrev pub leave : Option SignerRef → Error → Goroutine
leave none e = returned (err e)
leave (some ref) e = releasing ref (err e)

abbrev after_price : Service → SubmitInput → ℕ → SignerRef → ℕ → Result ℕ → Goroutine
after_price s i request ref gas (err e) =
    rejecting s request (some ref) (wrap "suggest gas price" e)
after_price s i request ref gas (ok price) = priced s i request ref gas price

abbrev pub after_gas : Service → SubmitInput → ℕ → SignerRef → Result ℕ → Goroutine
after_gas s i request ref (err e) = rejecting s request (some ref) (wrap "estimate gas" e)
after_gas s i request ref (ok gas) = after_price s i request ref gas s.chain.suggest_gas_price

abbrev pub after_sign : Service → ℕ → SignerRef → ℕ → ℕ → Result Signed → Goroutine
after_sign s request ref nonce price (err e) = rewinding ref none (wrap "sign" e)
after_sign s request ref nonce price (ok x) = recording s request ref x nonce price

abbrev pub after_attempt : Service → ℕ → SignerRef → Signed → Result ℕ → Goroutine
after_attempt s request ref x (err e) = rewinding ref none (wrap "insert attempt" e)
after_attempt s request ref x (ok attempt) = sending s request attempt ref x

abbrev pub after_rewind : SignerRef → Error → Option (Service × ℕ) → Goroutine
after_rewind ref e none = releasing ref (err e)
after_rewind ref e (some (s, attempt)) = failing s attempt ref e

abbrev pub after_mark : Service → ℕ → SignerRef → Signed → Result (Unit {0}) → Goroutine
after_mark s request ref x (err e) = releasing ref (err (wrap "mark submitted" e))
after_mark s request ref x (ok _) = notifying s request ref x

-- What the pointer to the signer gives; a nil pointer would panic.
abbrev with_signer : SignerRef → World → (Signer → Goroutine × World) → Option (Goroutine × World)
with_signer ref w f = elim (deref w.pool ref) [ none ↦ none | some sig ↦ some (f sig) ]

-- The next access of a goroutine to what it shares. `none` means that it waits for the channel of
-- idle signers, or that it has returned.
unfoldable pub advance : Goroutine → World → Option (Goroutine × World)
advance (entering s i) w = some (enter s i w (validate s i))
advance (loading s i request) w = elim (lookup i.app_id w.pool) [
  | some _ ↦ some (waiting s i request, w)
  | none ↦ some (after_fetch s i request (fetch s.backends i.app_id), w)
]
advance (installing s i request signers) w =
    some (waiting s i request, record w { pool = install w.pool i.app_id signers })
advance (waiting s i request) w = elim (checkout w.pool i.app_id s.cancelled) [
  | none ↦ none
  | some (r, p) ↦ some (after_checkout s i request r, record w { pool = p })
]
advance (lent s i request ref) w =
    with_signer ref w λ sig. (after_gas s i request ref (gas_limit_for s sig i), w)
advance (rejecting s request held e) w = some (leave held e, reject s request w)
advance (priced s i request ref gas price) w = with_signer ref w λ sig.
    let (nonce, sig') = use_nonce sig in
    (reserved s i request ref gas price nonce, write_signer ref sig' w)
advance (reserved s i request ref gas price nonce) w = with_signer ref w λ sig.
    let signing = s.sign_tx s.chain.chain_id (transaction_for i nonce gas price) sig.key in
    (after_sign s request ref nonce price signing, w)
advance (recording s request ref x nonce price) w = with_signer ref w λ sig.
    let (r, d) = insert_attempt s.pg request sig.address nonce x.hash price w.db in
    (after_attempt s request ref x r, record w { db = d })
advance (sending s request attempt ref x) w = elim (s.chain.send_transaction x) [
  | some e ↦ some (
    rewinding ref (some (s, attempt)) (wrap "submit" e),
    record w { sent = despite_error s ref x w.sent },
  )
  | none ↦ some (
    accepted s request attempt ref x,
    record w { sent = w.sent ++ record { by = ref; signed = x } ∷ [] },
  )
]
advance (rewinding ref then_mark e) w =
    with_signer ref w λ sig. (after_rewind ref e then_mark, write_signer ref (rewind_nonce sig) w)
advance (failing s attempt ref e) w = some (
  releasing ref (err e),
  record w { db = (mark_attempt_status s attempt AttemptStatus.failed w.db).1 },
)
advance (accepted s request attempt ref x) w =
    let (r, d) = mark_submitted s request attempt w.db in
    some (after_mark s request ref x r, record w { db = d })
advance (notifying s request ref x) w = with_signer ref w λ sig. (
  releasing ref (ok (record { request_id = request; tx_hash = x.hash; signer = sig.address })),
  record w { db = fire_webhook s.webhooks request w.db },
)
advance (releasing ref r) w = elim (release w.pool ref) [
  | none ↦ none
  | some p ↦ some (returned r, record w { pool = p })
]
advance (returned r) w = none

-- The goroutines of the process with what they share.
pub record System : Type 0 where
  pub world : World
  pub running : List Goroutine

-- Either a request comes in, or one of the goroutines makes its next access, or another part of the
-- process (the watcher, the other workers, the API) changes the database in whatever way. Every call
-- comes with a service, the surroundings that it meets, of which `P` holds.
pub data Step (P : Service → Type 0) (a b : System) : Type 0 where
  arrives :
      (s : Service) (i : SubmitInput)
      → P s
      → b.world ≡ a.world
      → b.running ≡ entering s i ∷ a.running
      → Step P a b
  runs :
      (before after : List Goroutine) (g g' : Goroutine)
      → a.running ≡ before ++ g ∷ after
      → advance g a.world ≡ some (g', b.world)
      → b.running ≡ before ++ g' ∷ after
      → Step P a b
  elsewhere : (d : Db) → b.world ≡ record a.world { db = d } → b.running ≡ a.running → Step P a b

-- Every interleaving.
pub data Reach (P : Service → Type 0) (a : System) : System → Type 0 where
  here : Reach P a a
  next : {b c : System} → Reach P a b → Step P b c → Reach P a c

-- A process that has just started with the database and the pool of `w`.
abbrev pub started : World → System
started w = record { world = w; running = [] }
