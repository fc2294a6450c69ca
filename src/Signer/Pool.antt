-- ===== src/Signer/Pool.antt =====
-- internal/signer/pool.go: the signers of each app in memory, and the channel of idle ones.
use txmill.Base.{
  ℕ, List, [], ◌∷◌, ◌++◌, Option, none, some, Result, ok, err, Error, sentinel, app_not_loaded, new,
  wrap, length, get_elem?, set, lookup, insert, ltb, if◌then◌else◌,
}
use txmill.Signer.{Signer}

-- `appPool`. A `*Signer` is its position in `signers`, so that the channel's entries and the
-- slice share one signer; the channel has the capacity `length signers`.
pub record AppPool : Type 0 where
  pub signers : List Signer
  pub idle : List ℕ

-- `Pool.apps`
abbrev pub Pool : Type 0
Pool = List (ℕ × AppPool)

-- A `*Signer` in a caller's hands.
pub record SignerRef : Type 0 where
  pub app_id : ℕ
  pub index : ℕ

-- The interfaces `SignerLister`, `Keystore` and `ChainNoncer`, as they answer during one call.
pub record Backends : Type 0 where
  pub list_signers : ℕ → Result (List ℕ)
  pub load_key : ℕ → Result ℕ
  pub pending_nonce_at : ℕ → Result ℕ

unfoldable pub new_pool : Pool
new_pool = []

abbrev hydrate_one : ℕ → ℕ → Result ℕ → Result ℕ → Result Signer
hydrate_one app addr (err e) nonce = err (wrap "load key" e)
hydrate_one app addr (ok key) (err e) = err (wrap "nonce" e)
hydrate_one app addr (ok key) (ok nonce) =
    ok (record { app_id = app; address = addr; key = key; nonce = nonce })

abbrev cons_signer : Result Signer → Result (List Signer) → Result (List Signer)
cons_signer (err e) rest = err e
cons_signer (ok s) (err e) = err e
cons_signer (ok s) (ok rest) = ok (s ∷ rest)

-- The loop of `Load` over the addresses; it stops at the first error.
unfoldable pub hydrate : Backends → ℕ → List ℕ → Result (List Signer)
hydrate b app [] = ok []
hydrate b app (addr ∷ rest) =
    let tail = hydrate b app rest in
    cons_signer (hydrate_one app addr (b.load_key addr) (b.pending_nonce_at addr)) tail

-- The positions 'from', 'from' + 1, … of the signers of a slice.
abbrev pub positions_from : ℕ → List Signer → List ℕ
positions_from i [] = []
positions_from i (s ∷ rest) = i ∷ positions_from (ℕ.suc i) rest

abbrev pub fresh_pool : List Signer → AppPool
fresh_pool signers = record { signers = signers; idle = positions_from 0 signers }

-- The end of `Load`, under the lock: another goroutine may have loaded the app meanwhile.
unfoldable pub install : Pool → ℕ → List Signer → Pool
install p app signers = elim (lookup app p) [
  | some _ ↦ p
  | none ↦ insert app (fresh_pool signers) p
]

abbrev fetch_signers : Backends → ℕ → Result (List ℕ) → Result (List Signer)
fetch_signers b app (err e) = err (wrap "list signers" e)
fetch_signers b app (ok []) = err (new "no signers for app")
fetch_signers b app (ok (addr ∷ rest)) = hydrate b app (addr ∷ rest)

-- What `Load` does between its two critical sections.
unfoldable pub fetch : Backends → ℕ → Result (List Signer)
unfolding hydrate
fetch b app = fetch_signers b app (b.list_signers app)

abbrev finish_load : Pool → ℕ → Result (List Signer) → Result (Unit {0}) × Pool
finish_load p app (err e) = (err e, p)
finish_load p app (ok signers) = (ok tt, install p app signers)

unfoldable pub load : Backends → Pool → ℕ → Result (Unit {0}) × Pool
unfolding fetch install
load b p app = elim (lookup app p) [ some _ ↦ (ok tt, p) | none ↦ finish_load p app (fetch b app) ]

-- The `select` of `Checkout`: `cancelled` is the context's error if that branch is taken.
-- `none` means that the caller is still blocked.
abbrev take_idle : Pool → ℕ → AppPool → Option Error → Option (Result SignerRef × Pool)
take_idle p app ap (some e) = some (err e, p)
take_idle p app ap none = elim ap.idle [
  | [] ↦ none
  | i ∷ rest ↦
      some (ok (record { app_id = app; index = i }), insert app (record ap { idle = rest }) p)
]

unfoldable pub checkout : Pool → ℕ → Option Error → Option (Result SignerRef × Pool)
checkout p app cancelled = elim (lookup app p) [
  | none ↦ some (err (sentinel app_not_loaded), p)
  | some ap ↦ take_idle p app ap cancelled
]

-- The send into the channel; `none` means that it blocks, since the channel is full.
abbrev put_idle : Pool → ℕ → AppPool → ℕ → Option Pool
put_idle p app ap i =
    if ltb (length ap.idle) (length ap.signers)
    then some (insert app (record ap { idle = ap.idle ++ i ∷ [] }) p)
    else none

unfoldable pub release : Pool → SignerRef → Option Pool
release p s = elim (lookup s.app_id p) [ none ↦ some p | some ap ↦ put_idle p s.app_id ap s.index ]

unfoldable pub size : Pool → ℕ → ℕ
size p app = elim (lookup app p) [ none ↦ 0 | some ap ↦ length ap.signers ]

-- What a `*Signer` points to, and a call of a method that writes to it.
unfoldable pub deref : Pool → SignerRef → Option Signer
deref p s = elim (lookup s.app_id p) [ none ↦ none | some ap ↦ get_elem? ap.signers s.index ]

unfoldable pub store : Pool → SignerRef → Signer → Pool
store p s v = elim (lookup s.app_id p) [
  | none ↦ p
  | some ap ↦ insert s.app_id (record ap { signers = set ap.signers s.index v }) p
]
