-- ===== src/Api/Router.antt =====
-- internal/api/router.go and handlers.go: the routes, and what stands before each handler.
use txmill.Base.{Addresses, ℕ, Option, none, some, Bytes, Result}
use txmill.App.{Service as AppService}
use txmill.Relay.Service.{Service as RelayService}
use txmill.Treasury.{Treasury}
use txmill.Api.{System, RelayRequest, CreateAppRequest, SweepRequest, Reply, json, healthy}
use txmill.Api.Relays
use txmill.Api.Accounts
use txmill.Api.Auth.{Access, denied, granted, bearer_auth}

-- `Handlers`, with go-ethereum's reading of addresses and echo's reply where no route fits.
pub record Handlers : Type 0 where
  pub apps : Option AppService
  pub relay : Option RelayService
  pub chain : Option (ℕ → Result ℕ)
  pub treasury : Option Treasury
  pub addresses : Addresses
  pub no_route : Reply

-- The requests of the protected group, each with its `:id` or `:request_id` and its JSON (`none`
-- where `Bind` refuses it).
pub data Protected : Type 0 where
  list_signers : ℕ → Protected
  balances : ℕ → Protected
  sweep : ℕ → Option SweepRequest → Protected
  post_relay : Option RelayRequest → Protected
  get_relay : ℕ → Protected

pub data Request : Type 0 where
  health : Request
  create_app : Option CreateAppRequest → Request
  protected : Protected → Request

abbrev answered : Reply × System → Option Reply × System
answered (r, s) = (some r, s)

-- The handler of a protected route, for the app of the token; a route that is not registered has
-- echo's reply. (`bearerAuth` stands before that reply too.)
unfoldable pub handle : Handlers → AppService → ℕ → Protected → System → Option Reply × System
handle h apps caller (Protected.list_signers id) s =
    (some (Accounts.list_signers apps caller id s), s)
handle h apps caller (Protected.balances id) s =
    (some (Accounts.get_balances apps h.chain caller id s), s)
handle h apps caller (Protected.sweep id req) s = elim h.treasury [
  | none ↦ (some h.no_route, s)
  | some t ↦ answered (Accounts.sweep_treasury h.addresses (some t) caller id req s)
]
handle h apps caller (Protected.post_relay req) s = elim h.relay [
  | none ↦ (some h.no_route, s)
  | some svc ↦ Relays.post_relay h.addresses svc caller req s
]
handle h apps caller (Protected.get_relay id) s = elim h.relay [
  | none ↦ (some h.no_route, s)
  | some svc ↦ (some (Relays.get_relay svc caller id s), s)
]

abbrev guarded : Handlers → AppService → Protected → Access → System → Option Reply × System
guarded h apps p (denied r) s = (some r, s)
guarded h apps p (granted id) s = handle h apps id.app_id p s

-- One request with its `Authorization` header.
unfoldable pub serve : Handlers → Bytes → Request → System → Option Reply × System
serve h header Request.health s = (some (json 200 healthy), s)
serve h header (Request.create_app req) s = elim h.apps [
  | none ↦ (some h.no_route, s)
  | some apps ↦ answered (Accounts.create_app apps req s)
]
serve h header (Request.protected p) s = elim h.apps [
  | none ↦ (some h.no_route, s)
  | some apps ↦ guarded h apps p (bearer_auth apps header s.db) s
]
