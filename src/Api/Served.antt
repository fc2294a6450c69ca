-- ===== src/Api/Served.antt =====
-- internal/api/router.go and relay.go: who reads a request that was posted through the router.
use txmill.Base.{ℕ, ◌≡◌, ◌∙◌, ap, sym, subst, inl, inr, none, some, Bytes, arith}
use txmill.Store.{
  Statement, insert_request as insert_request_stmt, update_request as update_request_stmt,
}
use txmill.App.{Service as AppService, Identity}
use txmill.Relay.Service.{Service}
use txmill.Api.{System, RelayRequest, RelayResponse, Reply, json, relayed}
use txmill.Api.Relays.{post_relay, get_relay}
use txmill.Api.Auth.{granted, bearer_auth, Opens}
use txmill.Api.Router.{Handlers, Protected, Request, handle, serve}
use txmill.Api.Guards.{serve_guarded}
use txmill.Api.Posted.{IsFresh, IsShown, post_relay-get_relay}

module _ (h : Handlers) (apps : AppService) (svc : Service) (there : h.apps ≡ some apps)
    (relays : h.relay ≡ some svc) where
  handle-post_relay :
      (app : ℕ) (req : RelayRequest) (s : System)
      → handle h apps app (Protected.post_relay (some req)) s
        ≡ post_relay h.addresses svc app (some req) s
  unfolding handle
  handle-post_relay app req s = ground (arith, relays)

  serve-get_relay :
      (header : Bytes) (id : Identity) (request : ℕ) (s : System)
      → bearer_auth apps header s.db ≡ granted id
      → (serve h header (Request.protected (Protected.get_relay request)) s).0
        ≡ some (get_relay svc id.app_id request s)
  unfolding serve handle
  serve-get_relay header id request s opens = ground (arith, there, relays, opens)

  -- Where `POST /v1/relay` replies with a request, the call carried the bearer token of an enabled app;
  -- and a later `GET /v1/relay/:request_id` whose token the server lets through shows that app, and no
  -- other, that request, submitted and with the metadata that was posted: any other app is told that
  -- it is not found. It is assumed that the server has the app service and the relay, that the new
  -- row's id is new, and that the database fails neither to update a request nor to read its status.
  pub serve-IsShown :
      (header header' : Bytes) (req : RelayRequest) (s : System) (code : ℕ) (resp : RelayResponse)
      (reader : Identity)
      → IsFresh (svc.pg.new_id insert_request_stmt) s.db.requests
      → svc.pg.failure update_request_stmt ≡ none
      → svc.pg.failure Statement.select_status ≡ none
      → (serve h header (Request.protected (Protected.post_relay (some req))) s).0
        ≡ some (json code (relayed resp))
      → bearer_auth apps header'
          (serve h header (Request.protected (Protected.post_relay (some req))) s).1.db
        ≡ granted reader
      → (id : Identity) × (reply : Reply) × Opens apps header s.db id
        × ((serve h header'
              (Request.protected (Protected.get_relay resp.request_id))
              (serve h header (Request.protected (Protected.post_relay (some req))) s).1).0
            ≡ some reply)
        × IsShown id.app_id reader.app_id resp.request_id req.callback_metadata reply
  serve-IsShown header header' req s code resp reader fresh works reads e opens' =
      let p = Protected.post_relay (some req) in
      let s' = (serve h header (Request.protected p) s).1 in
      elim (serve_guarded h apps header p s there) [
        | inl (refusal, same) ↦ absurd (rw e at refusal)
        | inr (id, opens, handled) ↦
            let is : serve h header (Request.protected p) s
                ≡ post_relay h.addresses svc id.app_id (some req) s =
              handled ∙ handle-post_relay id.app_id req s in
            let shown =
              post_relay-get_relay h.addresses svc svc id.app_id reader.app_id req s code resp fresh
                works reads (ap (λ x. x.0) (sym is) ∙ e) in
            (
              id,
              get_relay svc reader.app_id resp.request_id s',
              opens,
              serve-get_relay header' reader resp.request_id s' opens',
              subst
                  (λ x.
                    IsShown id.app_id reader.app_id resp.request_id req.callback_metadata
                      (get_relay svc reader.app_id resp.request_id x))
                  (ap (λ x. x.1) (sym is)) shown,
            )
      ]
