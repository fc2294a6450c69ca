-- ===== src/Api/Accounts.antt =====
-- internal/api/apps.go, signers.go, balances.go and treasury.go.
use txmill.Base.{
  Addresses, ℕ, ℤ, pos, negsuc, not, List, [], ◌∷◌, ◌++◌, Option, none, some, Bytes, Result, ok,
  err, app_not_found, map, ◌==◌, if◌then◌else◌, ltb, trim_space,
}
use txmill.Relay.Chain.{Signed}
use txmill.App.{Service, CreateInput, CreateResult, AppWorld}
use txmill.App.Policy.{set_string}
use txmill.App.Create.{create}
use txmill.App.Accounts.{AppAccounts, SignerInfo, accounts, list_signers as app_list_signers}
use txmill.Treasury.{Treasury, SweepResult, sweep}
use txmill.Api.{
  System, text, about, CreateAppRequest, SweepRequest, BalancesSigner, Reply, json, http_error,
  failed, app_created, signers, balances, swept, errors_is,
}

abbrev pub create_input : CreateAppRequest → CreateInput
create_input req = record {
  name = trim_space req.name;
  pool_size = req.pool_size;
  default_callback_url = trim_space req.default_callback_url;
  signer_min_balance = trim_space req.signer_min_balance;
  signer_refill_amount = trim_space req.signer_refill_amount;
  treasury_min_balance = trim_space req.treasury_min_balance;
}

abbrev pub create_reply : Result CreateResult → Reply
create_reply (err e) = http_error 400 (about "" e)
create_reply (ok res) = json 201 (
    app_created (record {
      app_id = res.app_id;
      bearer_token = res.bearer_token;
      default_callback_secret = res.default_callback_secret;
      treasury_address = res.treasury_address;
      signer_addresses = res.signer_addresses;
    }))

abbrev created : System → Result CreateResult × AppWorld → Reply × System
created s (r, w) = (create_reply r, record s { db = w.db; keys = w.keys })

abbrev pub app_world : System → AppWorld
app_world s = record { db = s.db; keys = s.keys }

-- `createApp`; `none` is a body that `Bind` refuses.
unfoldable pub create_app : Service → Option CreateAppRequest → System → Reply × System
create_app apps none s = (http_error 400 (text "invalid json body"), s)
create_app apps (some req) s = created s (create apps (create_input req) (app_world s))

abbrev signers_reply : ℕ → Result (List ℕ) → Reply
signers_reply app (err e) = failed e
signers_reply app (ok addresses) =
    json 200 (signers (record { app_id = app; signer_addresses = addresses }))

-- `listSigners`; `caller` is the app of the token.
unfoldable pub list_signers : Service → ℕ → ℕ → System → Reply
list_signers apps caller id s =
    if not (id == caller)
    then http_error 404 (text "not found")
    else signers_reply caller (app_list_signers apps caller s.db)

-- The balances of the addresses, in order, or the first error; the calls run at the same time.
abbrev cons_balance : Result ℕ → Result (List ℕ) → Result (List ℕ)
cons_balance (err e) rest = err e
cons_balance (ok b) (err e) = err e
cons_balance (ok b) (ok rest) = ok (b ∷ rest)

unfoldable pub fetch_balances : (ℕ → Result ℕ) → List ℕ → Result (List ℕ)
fetch_balances balance_at [] = ok []
fetch_balances balance_at (a ∷ rest) = cons_balance (balance_at a) (fetch_balances balance_at rest)

-- `balances[i+1]` beside the signer at `i`.
unfoldable pub signer_balances : List SignerInfo → List ℕ → List BalancesSigner
signer_balances [] bs = []
signer_balances (x ∷ xs) [] = []
signer_balances (x ∷ xs) (b ∷ bs) =
    record { address = x.address; balance_wei = b; last_used_at = x.last_used_at }
    ∷ signer_balances xs bs

-- There is a balance for each address, so the second case does not occur.
abbrev balances_reply : AppAccounts → Result (List ℕ) → Reply
balances_reply acc (err e) = http_error 502 (about "balance fetch: " e)
balances_reply acc (ok []) = json 200 (
    balances
      (record { treasury = record { address = acc.treasury; balance_wei = 0 }; signers = [] }))
balances_reply acc (ok (b ∷ bs)) = json 200 (
    balances (record {
      treasury = record { address = acc.treasury; balance_wei = b };
      signers = signer_balances acc.signers bs;
    }))

abbrev with_accounts : (ℕ → Result ℕ) → Result AppAccounts → Reply
with_accounts balance_at (err e) = failed e
with_accounts balance_at (ok acc) =
    balances_reply acc (fetch_balances balance_at (acc.treasury ∷ map (λ x. x.address) acc.signers))

-- `getBalances`; `none` is a nil `Chain`.
unfoldable pub get_balances : Service → Option (ℕ → Result ℕ) → ℕ → ℕ → System → Reply
get_balances apps chain caller id s =
    if not (id == caller) then http_error 404 (text "not found") else elim chain [
      | none ↦ http_error 503 (text "chain client not configured")
      | some balance_at ↦ with_accounts balance_at (accounts apps caller s.db)
    ]

-- The `value` of a sweep: `some none` is a missing one, `none` a text that is refused.
abbrev positive : Option ℤ → Option (Option ℤ)
positive none = none
positive (some (pos n)) = if ltb 0 n then some (some (pos n)) else none
positive (some (negsuc n)) = none

unfoldable pub sweep_value : Bytes → Option (Option ℤ)
sweep_value [] = some none
sweep_value (c ∷ s) = positive (set_string (c ∷ s))

abbrev sweep_reply : Result SweepResult → Reply
sweep_reply (ok res) = json 202 (
    swept
      (record { tx_hash = res.tx_hash; from = res.from; to = res.to; value_wei = res.value_wei }))
sweep_reply (err e) =
    if errors_is app_not_found e
    then http_error 404 (text "not found")
    else http_error 502 (about "" e)

abbrev add_sent : Option Signed → System → System
add_sent none s = s
add_sent (some x) s = record s { swept = s.swept ++ x ∷ [] }

abbrev sweep_done : System → Result SweepResult × Option Signed → Reply × System
sweep_done s (r, x) = (sweep_reply r, add_sent x s)

abbrev sweep_checked :
    Addresses → Treasury → ℕ → SweepRequest → Option (Option ℤ) → System → Reply × System
sweep_checked a t caller req none s =
    (http_error 400 (text "value must be a positive decimal string"), s)
sweep_checked a t caller req (some value) s =
    sweep_done s (sweep t caller (a.hex_to_address req.to) value s.db)

abbrev sweep_bound : Addresses → Treasury → ℕ → Option SweepRequest → System → Reply × System
sweep_bound a t caller none s = (http_error 400 (text "invalid json body"), s)
sweep_bound a t caller (some req) s =
    if not (a.is_hex_address req.to)
    then (http_error 400 (text "to is not a valid address"), s)
    else sweep_checked a t caller req (sweep_value req.value) s

-- `sweepTreasury`; `none` is a nil `Treasury`.
unfoldable pub sweep_treasury :
    Addresses → Option Treasury → ℕ → ℕ → Option SweepRequest → System → Reply × System
sweep_treasury a treasury caller id req s =
    if not (id == caller) then (http_error 404 (text "not found"), s) else elim treasury [
      | none ↦ (http_error 503 (text "treasury service not configured"), s)
      | some t ↦ sweep_bound a t caller req s
    ]
