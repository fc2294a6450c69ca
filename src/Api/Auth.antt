-- ===== src/Api/Auth.antt =====
-- internal/api/auth.go: the bearer token of a request, and the app that it opens.
use txmill.Base.{
  ◌≡◌, ◌∙◌, false, [], ◌∷◌, ◌++◌, Option, none, some, Bytes, bytes, Result, ok, err, invalid_token,
  new, after_prefix, after_prefix_sound, arith, is_empty, inl, inr, Option-cases, Result-cases,
  Bool-cases, if◌then◌else◌,
}
use txmill.Store.{App as AppRow, Db, Statement}
use txmill.App.{Service, Identity}
use txmill.App.Create.{authenticate, find_token}
use txmill.Api.{Reply, http_error, failed, text, errors_is}

abbrev token_of : Option Bytes → Result Bytes
token_of none = err (new "not a bearer token")
token_of (some []) = err (new "empty token")
token_of (some (c ∷ tok)) = ok (c ∷ tok)

unfoldable pub extract_bearer_token : Bytes → Result Bytes
extract_bearer_token header = token_of (after_prefix (bytes "Bearer ") header)

-- `bearerAuth` up to `next`: the reply of a request that does not get through, or the identity that
-- it puts into the context.
pub data Access : Type 0 where
  denied : Reply → Access
  granted : Identity → Access

abbrev if_enabled : Identity → Access
if_enabled id = if id.disabled then denied (http_error 403 (text "app is disabled")) else granted id

abbrev identified : Result Identity → Access
identified (ok id) = if_enabled id
identified (err e) =
    if errors_is invalid_token e
    then denied (http_error 401 (text "invalid token"))
    else denied (failed e)

abbrev with_token : Service → Db → Result Bytes → Access
with_token apps d (err e) = denied (http_error 401 (text "missing or invalid Authorization header"))
with_token apps d (ok token) = identified (authenticate apps token d)

unfoldable pub bearer_auth : Service → Bytes → Db → Access
unfolding extract_bearer_token
bearer_auth apps header d = with_token apps d (extract_bearer_token header)

-- The header is `Bearer ` and a token whose hash is that of a row of the database, which is enabled
-- and is the caller.
pub record Opens (apps : Service) (header : Bytes) (d : Db) (id : Identity) : Type 0 where
  pub token : Bytes
  pub row : AppRow
  pub header_is : header ≡ bytes "Bearer " ++ token
  pub found : find_token (apps.sha256 token) d.apps ≡ some row
  pub enabled : row.disabled ≡ false
  pub is_row : id ≡ record { app_id = row.id; pool_size = row.pool_size; disabled = row.disabled }

extracted :
    (header token : Bytes)
    → extract_bearer_token header ≡ ok token
    → header ≡ bytes "Bearer " ++ token
unfolding extract_bearer_token
extracted header token h = elim (Option-cases (after_prefix (bytes "Bearer ") header)) [
  | inl other ↦ absurd (ground arith)
  | inr ([], e) ↦ absurd (ground arith)
  | inr (c ∷ tok, e) ↦ after_prefix_sound (bytes "Bearer ") header (c ∷ tok) e ∙ ground arith
]

pub bearer_auth-Opens :
    (apps : Service) (header : Bytes) (d : Db) (id : Identity)
    → bearer_auth apps header d ≡ granted id
    → Opens apps header d id
unfolding bearer_auth authenticate
bearer_auth-Opens apps header d id h = elim (Result-cases (extract_bearer_token header)) [
  | inl (e, bad) ↦ absurd (ground arith)
  | inr (token, good) ↦ elim (Bool-cases (is_empty token)) [
    | inl empty ↦ absurd (ground arith)
    | inr full ↦ elim (Option-cases (apps.pg.failure Statement.select_app)) [
      | inr (e, fails) ↦ absurd (ground arith)
      | inl works ↦ elim (Option-cases (find_token (apps.sha256 token) d.apps)) [
        | inl unknown ↦ absurd (ground arith)
        | inr (row, found) ↦ record {
          token = token;
          row = row;
          header_is = extracted header token good;
          found = found;
          enabled = ground arith;
          is_row = ground arith;
        }
      ]
    ]
  ]
]
