-- ===== src/Api/Guards.antt =====
-- internal/api: what has to hold before a protected handler runs.
use txmill.Base.{◌≡◌, ◌⊎◌, inl, inr, refl, Option, none, some, Bytes, arith}
use txmill.Store.{Db}
use txmill.App.{Service as AppService, Identity}
use txmill.Api.{System, Reply, json, http_error, failed}
use txmill.Api.Auth.{Access, denied, granted, bearer_auth, Opens, bearer_auth-Opens}
use txmill.Api.Router.{Handlers, Protected, Request, handle, serve}

-- The replies of `bearerAuth` itself.
abbrev pub IsRefusal : Option Reply → Type 0
IsRefusal none = ⊥
IsRefusal (some (json code body)) = ⊥
IsRefusal (some (http_error code m)) = (code ≡ 401) ⊎ (code ≡ 403)
IsRefusal (some (failed e)) = Unit

denied-IsRefusal :
    (apps : AppService) (header : Bytes) (d : Db) (r : Reply)
    → bearer_auth apps header d ≡ denied r
    → IsRefusal (some r)
unfolding bearer_auth
denied-IsRefusal apps header d (json code body) h = ground arith
denied-IsRefusal apps header d (http_error code m) h = ground arith
denied-IsRefusal apps header d (failed e) h = tt

-- Where the server has the app service, a request to a protected route either is refused with 401,
-- 403 or an error and changes nothing at all, or carries the bearer token of an enabled app and is
-- handled as that app's.
pub serve_guarded :
    (h : Handlers) (apps : AppService) (header : Bytes) (p : Protected) (s : System)
    → h.apps ≡ some apps
    → (IsRefusal (serve h header (Request.protected p) s).0
        × ((serve h header (Request.protected p) s).1 ≡ s))
      ⊎ ((id : Identity) × Opens apps header s.db id
          × (serve h header (Request.protected p) s ≡ handle h apps id.app_id p s))
unfolding serve
serve_guarded h apps header p s there = by_access (bearer_auth apps header s.db) refl
  where
    by_access :
        (a : Access)
        → bearer_auth apps header s.db ≡ a
        → (IsRefusal (serve h header (Request.protected p) s).0
            × ((serve h header (Request.protected p) s).1 ≡ s))
          ⊎ ((id : Identity) × Opens apps header s.db id
              × (serve h header (Request.protected p) s ≡ handle h apps id.app_id p s))
    by_access (denied r) e =
        inl (rw (there, e) (denied-IsRefusal apps header s.db r e), ground (arith, there, e))
    by_access (granted id) e =
        inr (id, bearer_auth-Opens apps header s.db id e, ground (arith, there, e))
