-- ===== src/App/Access.antt =====
-- internal/app/auth.go: the token that `Create` returned opens the app.
use txmill.Base.{ℕ, pos, ◌≡◌, bytes_eq_refl, false, List, [], ◌∷◌, ◌++◌, none, some, ok, arith}
use txmill.Store.{App as AppRow, Statement}
use txmill.App.{CreateInput, CreateResult, Service, AppWorld}
use txmill.App.Create.{find_token, create, authenticate}
use txmill.App.Created.{create_lem, create-token}

find_token-append :
    (row : AppRow) (rows : List AppRow)
    → find_token row.bearer_token_hash rows ≡ none
    → find_token row.bearer_token_hash (rows ++ row ∷ []) ≡ some row
find_token-append row [] h = ground (arith, bytes_eq_refl row.bearer_token_hash)
find_token-append row (x ∷ rows) h = ground (arith, find_token-append row rows)

-- After a call of `Create` that succeeded, `Authenticate` with the returned token gives the new app's
-- id with the pool size that was asked for, and not disabled. The lookup is assumed not to fail.
pub create-authenticate :
    (s : Service) (i : CreateInput) (w : AppWorld) (res : CreateResult)
    → (create s i w).0 ≡ ok res
    → s.pg.failure Statement.select_app ≡ none
    → (n : ℕ) × (i.pool_size ≡ pos n)
      × (authenticate s res.bearer_token (create s i w).1.db
          ≡ ok (record { app_id = res.app_id; pool_size = n; disabled = false }))
unfolding authenticate
create-authenticate s i w res h works =
    let (n, row, size, _, _, _, _, _, id, _, _, hash, _, pool, enabled, fresh, left) =
      create_lem s i w res h in
    let token = create-token s i w res h in
    let found = find_token-append row w.db.apps (ground (arith, hash, fresh)) in
    (n, size, ground (arith, token, found, hash, left, id, pool, enabled))
