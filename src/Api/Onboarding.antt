-- ===== src/Api/Onboarding.antt =====
-- internal/api and internal/app: the token in the reply of `POST /v1/apps` opens the new app.
use txmill.Base.{
  ℕ, pos, ◌≡◌, false, ◌++◌, none, some, Bytes, bytes, ok, after_prefix-append, arith, is_empty,
  Result-cases, inl, inr, [], ◌∷◌,
}
use txmill.Store.{Statement}
use txmill.App.{Service, CreateResult}
use txmill.App.Create.{create}
use txmill.App.Created.{create-token}
use txmill.App.Access.{create-authenticate}
use txmill.Api.{System, CreateAppRequest, CreateAppResponse, json, app_created}
use txmill.Api.Accounts.{create_app, create_input, app_world}
use txmill.Api.Auth.{granted, bearer_auth, extract_bearer_token}
use txmill.Api.Router.{Handlers, Request, serve}

create_app_created :
    (apps : Service) (req : CreateAppRequest) (s : System) (code : ℕ) (resp : CreateAppResponse)
    → (create_app apps (some req) s).0 ≡ json code (app_created resp)
    → (res : CreateResult) × ((create apps (create_input req) (app_world s)).0 ≡ ok res)
      × (res.app_id ≡ resp.app_id)
      × (res.bearer_token ≡ resp.bearer_token)
unfolding create_app
create_app_created apps req s code resp h =
    elim (Result-cases (create apps (create_input req) (app_world s)).0) [
      | inl (e, failed) ↦ absurd (ground arith)
      | inr (res, made) ↦ (res, made, ground arith, ground arith)
    ]

extract-bearer :
    (token : Bytes)
    → is_empty token ≡ false
    → extract_bearer_token (bytes "Bearer " ++ token) ≡ ok token
unfolding extract_bearer_token
extract-bearer [] h = absurd (ground arith)
extract-bearer (c ∷ token) h = ground (arith, after_prefix-append (bytes "Bearer ") (c ∷ token))

-- After `POST /v1/apps` has replied with a new app, a request with that reply's token as its bearer
-- token is let through as that app, with the pool size that was asked for. It is assumed that the
-- server has the app service, and that the lookup of the token does not fail.
pub serve-bearer_auth :
    (h : Handlers) (apps : Service) (header : Bytes) (req : CreateAppRequest) (s : System)
    (code : ℕ) (resp : CreateAppResponse)
    → h.apps ≡ some apps
    → (serve h header (Request.create_app (some req)) s).0 ≡ some (json code (app_created resp))
    → apps.pg.failure Statement.select_app ≡ none
    → (n : ℕ) × (req.pool_size ≡ pos n)
      × (bearer_auth apps
            (bytes "Bearer " ++ resp.bearer_token)
            (serve h header (Request.create_app (some req)) s).1.db
          ≡ granted (record { app_id = resp.app_id; pool_size = n; disabled = false }))
unfolding serve bearer_auth create_app
serve-bearer_auth h apps header req s code resp there replied works =
    let (res, made, id, token) = create_app_created apps req s code resp (ground (arith, there)) in
    let (n, size, opens) =
      create-authenticate apps (create_input req) (app_world s) res made works in
    let full = create-token apps (create_input req) (app_world s) res made in
    let extracts = extract-bearer res.bearer_token full in
    (n, size, ground (arith, there, id, token, opens, extracts))
