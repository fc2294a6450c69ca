-- ===== src/App/Create.antt =====
-- internal/app/app.go, `Create`, and internal/app/auth.go.
use txmill.Base.{
  ℕ, ℤ, pos, negsuc, suc, zero, Bool, false, ◌&&◌, ◌||◌, List, [], ◌∷◌, ◌++◌, Option, none, some,
  Bytes, bytes, bytes_eq, Result, ok, err, Error, sentinel, invalid_token, new, wrap, is_empty, leb,
  ◌==◌, if◌then◌else◌, trim_space, String,
}
use txmill.Store.{
  App as AppRow, SignerRow, Db, Exec, ◌>>=◌, Postgres, Statement, statement, transaction,
  nullif_empty,
}
use txmill.App.{CreateInput, CreateResult, Service, AppWorld, Identity}
use txmill.App.Policy.{validate_gas_policy}

-- The bounds `minPoolSize` and `maxPoolSize`.
abbrev pub pool_count : ℤ → Option ℕ
pool_count (pos n) = if leb 1 n && leb n 1024 then some n else none
pool_count (negsuc n) = none

abbrev cons_address : ℕ → Result (List ℕ) → Result (List ℕ)
cons_address a (err e) = err e
cons_address a (ok rest) = ok (a ∷ rest)

-- The loop over the signers, from the keystore's call `i` on; it stops at the first error.
unfoldable pub generate_signers : Service → ℕ → ℕ → List ℕ → Result (List ℕ) × List ℕ
generate_signers s i zero keys = (ok [], keys)
generate_signers s i (suc n) keys = elim (s.generate i) [
  | err e ↦ (err (wrap "generate signer" e), keys)
  | ok a ↦
      let (r, keys') = generate_signers s (suc i) n (keys ++ a ∷ []) in (cons_address a r, keys')
]

abbrev labelled : String → Bytes → (Bytes → Bytes) → Result Bytes → Result Bytes
labelled text tag encode (err e) = err (wrap text e)
labelled text tag encode (ok raw) = ok (tag ++ encode raw)

-- The token of `newBearerToken`; its hash is `sha256` of it.
abbrev pub new_bearer_token : Service → Result Bytes
new_bearer_token s = labelled "token rand" (bytes "tk_") s.base64 (s.rand 0)

abbrev pub new_callback_secret : Service → Result Bytes
new_callback_secret s = labelled "callback secret rand" (bytes "whsec_") s.base64 (s.rand 1)

abbrev pub secret_for : Service → Bytes → Result Bytes
secret_for s url = if is_empty url then ok [] else new_callback_secret s

abbrev pub non_empty_or_zero : Bytes → Bytes
non_empty_or_zero [] = bytes "0"
non_empty_or_zero (c ∷ s) = c ∷ s

-- The row of `apps`, with the columns' defaults; `min`, `refill` and `low` are the policy's amounts.
abbrev pub new_app : Service → Bytes → ℕ → Bytes → Bytes → ℕ → Bytes → ℤ → ℤ → ℤ → AppRow
new_app s name pool_size url secret treasury hash min refill low = record {
  id = s.pg.new_id Statement.insert_app;
  name = name;
  treasury_address = treasury;
  bearer_token_hash = hash;
  pool_size = pool_size;
  default_callback_url = nullif_empty url;
  default_callback_secret = nullif_empty secret;
  disabled = false;
  signer_min_balance = min;
  signer_refill_amount = refill;
  treasury_min_balance = low;
}

-- The unique index on `bearer_token_hash`.
abbrev pub find_token : Bytes → List AppRow → Option AppRow
find_token hash [] = none
find_token hash (a ∷ rest) =
    if bytes_eq a.bearer_token_hash hash then some a else find_token hash rest

abbrev put_app : Service → AppRow → Exec Db ℕ
put_app s row d = elim (find_token row.bearer_token_hash d.apps) [
  | some other ↦ (err s.pg.unique_violation, d)
  | none ↦ (ok row.id, record d { apps = d.apps ++ row ∷ [] })
]

abbrev with_amounts : Service → (ℤ → ℤ → ℤ → AppRow) → Result ℤ → Result ℤ → Result ℤ → Exec Db ℕ
with_amounts s row (ok min) (ok refill) (ok low) d = put_app s (row min refill low) d
with_amounts s row (err e) refill low d = (err e, d)
with_amounts s row (ok min) (err e) low d = (err e, d)
with_amounts s row (ok min) (ok refill) (err e) d = (err e, d)

abbrev has_address : ℕ → List SignerRow → Bool
has_address a [] = false
has_address a (r ∷ rest) = r.address == a || has_address a rest

abbrev pub signer_row : Postgres → ℕ → ℕ → SignerRow
signer_row pg app address = record {
  address = address;
  app_id = app;
  created_at = pg.now;
  last_used_at = none;
}

-- `COPY`, with the primary key on `address`.
unfoldable pub add_signers : Postgres → ℕ → List ℕ → List SignerRow → Option (List SignerRow)
add_signers pg app [] rows = some rows
add_signers pg app (a ∷ rest) rows =
    let added = add_signers pg app rest (rows ++ signer_row pg app a ∷ []) in
    if has_address a rows then none else added

abbrev copy_signers : Service → ℕ → List ℕ → Exec Db ℕ
copy_signers s app addresses d = elim (add_signers s.pg app addresses d.signers) [
  | none ↦ (err s.pg.unique_violation, d)
  | some rows ↦ (ok app, record d { signers = rows })
]

-- `insert`
unfoldable pub insert : Service → (ℤ → ℤ → ℤ → AppRow) → CreateInput → List ℕ → Exec Db ℕ
insert s row i signers = transaction s.pg do
  app ← statement s.pg Statement.insert_app (
      with_amounts s row (s.numeric (non_empty_or_zero i.signer_min_balance))
        (s.numeric (non_empty_or_zero i.signer_refill_amount))
        (s.numeric (non_empty_or_zero i.treasury_min_balance)))
  statement s.pg Statement.copy_signers (copy_signers s app signers)

abbrev pub finish :
    ℕ → List ℕ → Bytes → Bytes → AppWorld → Result ℕ × Db → Result CreateResult × AppWorld
finish treasury signers token secret w (err e, d) = (err (wrap "insert" e), record w { db = d })
finish treasury signers token secret w (ok app, d) = (
  ok (record {
    app_id = app;
    bearer_token = token;
    default_callback_secret = secret;
    treasury_address = treasury;
    signer_addresses = signers;
  }),
  record w { db = d },
)

abbrev Creating : Type 0
Creating = AppWorld → Result CreateResult × AppWorld

abbrev with_secret :
    Service → CreateInput → Bytes → ℕ → ℕ → List ℕ → Bytes → Result Bytes → Creating
with_secret s i name n treasury signers token (err e) w = (err e, w)
with_secret s i name n treasury signers token (ok secret) w =
    let row = new_app s name n i.default_callback_url secret treasury (s.sha256 token) in
    finish treasury signers token secret w (insert s row i signers w.db)

abbrev with_token : Service → CreateInput → Bytes → ℕ → ℕ → List ℕ → Result Bytes → Creating
with_token s i name n treasury signers (err e) w = (err e, w)
with_token s i name n treasury signers (ok token) w =
    with_secret s i name n treasury signers token (secret_for s i.default_callback_url) w

abbrev with_signers : Service → CreateInput → Bytes → ℕ → ℕ → Result (List ℕ) → Creating
with_signers s i name n treasury (err e) w = (err e, w)
with_signers s i name n treasury (ok signers) w =
    with_token s i name n treasury signers (new_bearer_token s) w

-- The keys, from the treasury's on.
abbrev with_treasury : Service → CreateInput → Bytes → ℕ → Result ℕ → Creating
with_treasury s i name n (err e) w = (err (wrap "generate treasury" e), w)
with_treasury s i name n (ok treasury) w =
    let (r, keys) = generate_signers s 1 n (w.keys ++ treasury ∷ []) in
    with_signers s i name n treasury r (record w { keys = keys })

abbrev validated : Service → CreateInput → Bytes → ℕ → Option Error → Creating
validated s i name n (some e) w = (err e, w)
validated s i name n none w = with_treasury s i name n (s.generate 0) w

abbrev sized : Service → CreateInput → Bytes → Option ℕ → Creating
sized s i name none w = (err (new "pool_size must be between 1 and 1024"), w)
sized s i name (some n) w =
    validated s i name n (validate_gas_policy i.signer_min_balance i.signer_refill_amount) w

-- `Service.Create`
unfoldable pub create : Service → CreateInput → Creating
create s i w =
    let name = trim_space i.name in
    if is_empty name
    then (err (new "name is required"), w)
    else sized s i name (pool_count i.pool_size) w

abbrev identity_of : Option AppRow → Result Identity
identity_of none = err (sentinel invalid_token)
identity_of (some a) = ok (record { app_id = a.id; pool_size = a.pool_size; disabled = a.disabled })

-- `Service.Authenticate`
unfoldable pub authenticate : Service → Bytes → Db → Result Identity
authenticate s token d =
    if is_empty token
    then err (sentinel invalid_token)
    else elim (s.pg.failure Statement.select_app) [
      | some e ↦ err (wrap "authenticate" e)
      | none ↦ identity_of (find_token (s.sha256 token) d.apps)
    ]
