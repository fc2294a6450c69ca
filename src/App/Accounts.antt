-- ===== src/App/Accounts.antt =====
-- internal/app/signers.go: an app's accounts, and that a new app lists the signers made for it.
use mathlib.Core.List.{Perm}
use mathlib.Core.List.Perm
use txmill.Base.{
  ℕ, ◌≡◌, ◌≢◌, refl, ap, subst, ◌∙◌, List, [], ◌∷◌, ◌++◌, map, Option, none, some, Result, ok, err,
  sentinel, no_rows, wrap, All, arith, find, select, order_by, order_by-perm, ◌==◌, ==_refl,
}
use txmill.Store.{
  App as AppRow, SignerRow, Db, Statement, Postgres, list_signers as list_signers_stmt,
}
use txmill.App.{Service, CreateInput, CreateResult, AppWorld}
use txmill.App.Create.{create, signer_row}
use txmill.App.Created.{create_lem}

pub record SignerInfo : Type 0 where
  pub address : ℕ
  pub last_used_at : Option ℕ

pub record AppAccounts : Type 0 where
  pub treasury : ℕ
  pub signers : List SignerInfo

-- `WHERE app_id = $1 ORDER BY created_at, address`
abbrev pub signers_of : ℕ → Db → List SignerRow
signers_of app d =
    order_by (λ r. r.created_at)
      (order_by (λ r. r.address) (select (λ r. r.app_id == app) d.signers))

abbrev info_of : SignerRow → SignerInfo
info_of r = record { address = r.address; last_used_at = r.last_used_at }

abbrev with_treasury : Service → ℕ → Db → Option AppRow → Result AppAccounts
with_treasury s app d none = err (wrap "treasury" (sentinel no_rows))
with_treasury s app d (some a) = elim (s.pg.failure (list_signers_stmt app)) [
  | some e ↦ err (wrap "signers" e)
  | none ↦ ok (record { treasury = a.treasury_address; signers = map info_of (signers_of app d) })
]

-- `Service.Accounts`
unfoldable pub accounts : Service → ℕ → Db → Result AppAccounts
accounts s app d = elim (s.pg.failure Statement.select_treasury) [
  | some e ↦ err (wrap "treasury" e)
  | none ↦ with_treasury s app d (find (λ a. a.id == app) d.apps)
]

-- `Service.ListSigners`
unfoldable pub list_signers : Service → ℕ → Db → Result (List ℕ)
list_signers s app d = elim (s.pg.failure (list_signers_stmt app)) [
  | some e ↦ err (wrap "list signers" e)
  | none ↦ ok (map (λ r. r.address) (signers_of app d))
]

-- The rows of an app that has none, after the rows of a new one.
select-signer_row :
    (pg : Postgres) (app : ℕ) (addresses : List ℕ)
    → select (λ r. r.app_id == app) (map (signer_row pg app) addresses)
      ≡ map (signer_row pg app) addresses
select-signer_row pg app [] = refl
select-signer_row pg app (a ∷ rest) = ground (arith, ==_refl app, select-signer_row pg app rest)

select-append_new :
    (pg : Postgres) (app : ℕ) (addresses : List ℕ) (rows : List SignerRow)
    → All (λ r. r.app_id ≢ app) rows
    → select (λ r. r.app_id == app) (rows ++ map (signer_row pg app) addresses)
      ≡ map (signer_row pg app) addresses
select-append_new pg app addresses [] h = select-signer_row pg app addresses
select-append_new pg app addresses (r ∷ rows) h =
    ground (arith, select-append_new pg app addresses rows h.1)

map-address :
    (pg : Postgres) (app : ℕ) (addresses : List ℕ)
    → map (λ r. r.address) (map (signer_row pg app) addresses) ≡ addresses
map-address pg app [] = refl
map-address pg app (a ∷ rest) = ap (◌∷◌ a) (map-address pg app rest)

-- After a call of `Create` that succeeded, and whose app's id was no signer's before, `ListSigners`
-- gives the app exactly the addresses that the call returned, each as often, in some order. The query
-- is assumed not to fail.
pub create-list_signers :
    (s : Service) (i : CreateInput) (w : AppWorld) (res : CreateResult)
    → (create s i w).0 ≡ ok res
    → All (λ r. r.app_id ≢ res.app_id) w.db.signers
    → s.pg.failure (list_signers_stmt res.app_id) ≡ none
    → (listed : List ℕ) × (list_signers s res.app_id (create s i w).1.db ≡ ok listed)
      × Perm listed res.signer_addresses
unfolding list_signers
create-list_signers s i w res h fresh works =
    let (n, row, _, _, _, _, _, _, id, _, _, _, _, _, _, _, left) = create_lem s i w res h in
    let app = res.app_id in
    let rows : (create s i w).1.db.signers
        ≡ w.db.signers ++ map (signer_row s.pg app) res.signer_addresses =
      ground (arith, left, id) in
    let chosen : select (λ r. r.app_id == app) (create s i w).1.db.signers
        ≡ map (signer_row s.pg app) res.signer_addresses =
      ap (select (λ r. r.app_id == app)) rows
      ∙ select-append_new s.pg app res.signer_addresses w.db.signers fresh in
    (
      map (λ r. r.address) (signers_of app (create s i w).1.db),
      ground arith,
      subst (Perm (map (λ r. r.address) (signers_of app (create s i w).1.db)))
          (ap (map (λ r. r.address)) chosen ∙ map-address s.pg app res.signer_addresses)
          (Perm.map (λ r. r.address)
            (Perm.trans (order_by-perm (λ r. r.created_at) _) (order_by-perm (λ r. r.address) _))),
    )
