-- ===== src/Api/Posted.antt =====
-- internal/api/relay.go: what a client gets to see of a request that it has posted.
use txmill.Base.{
  Addresses, ℕ, ◌≡◌, ◌≢◌, ◌⊎◌, inl, inr, refl, sym, ap, subst, sentinel, request_not_found, ◌∙◌,
  ◌&&◌, ◌++◌, List, [], ◌∷◌, Option, none, some, ok, err, All, arith, find, ◌==◌, Option-cases,
  Result-cases, Bool-cases, Bytes, if◌then◌else◌,
}
use txmill.Store.{
  Db, Request as RequestRow, RequestStatus, Attempt, Statement, Postgres,
  insert_request as insert_request_stmt, update_request as update_request_stmt, nullif_empty,
  or_empty,
}
use txmill.Relay.Service.{Service, SubmitInput, SubmitResult, World, submit, insert_request}
use txmill.Relay.Get.{Status, get, scan, last_attempt}
use txmill.Relay.Marks.{status_in, status_in-append}
use txmill.Relay.Outcome.{submit-status}
use txmill.Relay.Appends.{submit_appends}
use txmill.Relay.Sends.{submit_sends}
use txmill.Api.{
  System, RelayRequest, RelayResponse, text, Reply, json, http_error, relayed, relay_status,
}
use txmill.Api.Relays.{post_relay, get_relay, world_of}
use txmill.Api.Bodies.{post_relay_lem}

abbrev pub IsFresh : ℕ → List RequestRow → Type 0
IsFresh id rs = All (λ r. r.id ≢ id) rs

status_in-IsFresh : (id : ℕ) (rs : List RequestRow) → IsFresh id rs → status_in id rs ≡ none
status_in-IsFresh id [] f = refl
status_in-IsFresh id (r ∷ rs) f = ground (arith, status_in-IsFresh id rs f.1)

find-IsFresh :
    (id caller : ℕ) (rs : List RequestRow) (row : RequestRow)
    → IsFresh id rs
    → find (λ x. x.id == id && x.app_id == caller) (rs ++ row ∷ [])
      ≡ find (λ x. x.id == id && x.app_id == caller) (row ∷ [])
find-IsFresh id caller [] row f = refl
find-IsFresh id caller (r ∷ rs) row f = ground (arith, find-IsFresh id caller rs row f.1)

-- The row of a call of `Submit` that succeeded.
record Row (s : Service) (i : SubmitInput) (w : World) (res : SubmitResult) : Type 0 where
  pub row : RequestRow
  pub id : row.id ≡ res.request_id
  pub app_id : row.app_id ≡ i.app_id
  pub metadata : row.callback_metadata ≡ nullif_empty i.callback_metadata
  pub status : row.status ≡ RequestStatus.submitted
  pub stored : (submit s i w).1.db.requests ≡ w.db.requests ++ row ∷ []
  pub fresh : IsFresh res.request_id w.db.requests

inserted_id :
    (s : Service) (i : SubmitInput) (d : Db) (id : ℕ)
    → (insert_request s.pg i d).0 ≡ ok id
    → id ≡ s.pg.new_id insert_request_stmt
unfolding insert_request
inserted_id s i d id h = ground arith

submit-Row :
    (s : Service) (i : SubmitInput) (w : World) (res : SubmitResult)
    → IsFresh (s.pg.new_id insert_request_stmt) w.db.requests
    → s.pg.failure update_request_stmt ≡ none
    → (submit s i w).0 ≡ some (ok res)
    → Row s i w res
submit-Row s i w res fresh works h =
    let (valid, stored, sends) = submit_sends s i w res h in
    let is : res.request_id ≡ s.pg.new_id insert_request_stmt =
      inserted_id s i w.db res.request_id stored in
    let fresh' = subst (λ n. IsFresh n w.db.requests) (sym is) fresh in
    let none_yet = status_in-IsFresh res.request_id w.db.requests fresh' in
    let marked =
      submit-status s i w res.request_id works
        (status_in-IsFresh (s.pg.new_id insert_request_stmt) w.db.requests fresh) valid stored
        (ok res) h in
    elim (submit_appends s i w fresh) [
      | inl same ↦ absurd (ground (arith, marked, none_yet, same))
      | inr (row, stores, own) ↦
          let id : row.id ≡ res.request_id = ground (arith, own, is) in
          record {
            row = row;
            id = id;
            app_id = ground (arith, own);
            metadata = ground (arith, own);
            status =
                ground
                  (arith, marked, stores, id, status_in-append row w.db.requests (rw id none_yet));
            stored = stores;
            fresh = fresh';
          }
    ]

get-Row :
    (s : Service) (i : SubmitInput) (w : World) (res : SubmitResult) (pg : Postgres) (caller : ℕ)
    → (r : Row s i w res) → pg.failure Statement.select_status ≡ none
    → (get pg res.request_id caller (submit s i w).1.db).0 ≡ (
        if i.app_id == caller
        then ok (scan r.row (last_attempt (submit s i w).1.db res.request_id))
        else err (sentinel request_not_found))
unfolding get
get-Row s i w res pg caller r works =
    let found = find-IsFresh res.request_id caller w.db.requests r.row r.fresh in
    ground (arith, r.stored, r.id, r.app_id, found)

-- What `GET /v1/relay/:request_id` replies to a caller: the owner of the request sees its id, its
-- metadata and that it is submitted, and any other app is told that there is no such request.
abbrev pub IsShown : ℕ → ℕ → ℕ → Bytes → Reply → Type 0
IsShown app caller id metadata reply =
    ((caller ≢ app) × (reply ≡ http_error 404 (text "not found")))
    ⊎ ((caller ≡ app)
        × (st : Status) × (reply ≡ json 200 (relay_status st))
        × (st.request_id ≡ id)
        × (st.status ≡ RequestStatus.submitted)
        × (st.callback_metadata ≡ metadata))

scan_lem :
    (r : RequestRow) (o : Option Attempt)
    → ((scan r o).request_id ≡ r.id)
      × ((scan r o).status ≡ r.status)
      × ((scan r o).callback_metadata ≡ or_empty r.callback_metadata)
unfolding scan
scan_lem r none = (refl, refl, refl)
scan_lem r (some a) = (refl, refl, refl)

or_empty-nullif_empty : (b : Bytes) → or_empty (nullif_empty b) ≡ b
or_empty-nullif_empty [] = refl
or_empty-nullif_empty (c ∷ b) = refl

get_relay-Row :
    (svc reader : Service) (i : SubmitInput) (w : World) (res : SubmitResult) (caller : ℕ)
    (s : System) (app id : ℕ) (metadata : Bytes)
    → Row svc i w res
    → reader.pg.failure Statement.select_status ≡ none
    → s.db ≡ (submit svc i w).1.db
    → i.app_id ≡ app
    → res.request_id ≡ id
    → i.callback_metadata ≡ metadata
    → IsShown app caller id metadata (get_relay reader caller id s)
unfolding get_relay
get_relay-Row svc reader i w res caller s app id metadata r works same ea ei em =
    let got = get-Row svc i w res reader.pg caller r works in
    let at = last_attempt (submit svc i w).1.db res.request_id in
    let (shows_id, shows_status, shows_metadata) = scan_lem r.row at in
    elim (Bool-cases (i.app_id == caller)) [
      | inr other ↦ inl (ground arith, ground (arith, got, same))
      | inl own ↦ inr (
        ground arith,
        scan r.row at,
        ground (arith, got, same),
        shows_id ∙ r.id ∙ ei,
        shows_status ∙ r.status,
        shows_metadata ∙ ap or_empty r.metadata ∙ or_empty-nullif_empty i.callback_metadata ∙ em,
      )
    ]

-- After `POST /v1/relay` has replied with a request, `GET /v1/relay/:request_id` shows the caller's
-- app that request, submitted and with the metadata that was posted, and tells any other app that it
-- is not found. It is assumed that the new row's id is new, and that the database fails neither to
-- update a request nor to read its status.
pub post_relay-get_relay :
    (a : Addresses) (svc reader : Service) (app caller : ℕ) (req : RelayRequest) (s : System)
    (code : ℕ) (resp : RelayResponse)
    → IsFresh (svc.pg.new_id insert_request_stmt) s.db.requests
    → svc.pg.failure update_request_stmt ≡ none
    → reader.pg.failure Statement.select_status ≡ none
    → (post_relay a svc app (some req) s).0 ≡ some (json code (relayed resp))
    → IsShown app caller resp.request_id req.callback_metadata
        (get_relay reader caller resp.request_id (post_relay a svc app (some req) s).1)
post_relay-get_relay a svc reader app caller req s code resp fresh works reads h =
    elim (post_relay_lem a svc app req s) [
      | inl (m, is) ↦ absurd (ground (arith, is))
      | inr (i, good, is) ↦ elim (Option-cases (submit svc i (world_of s)).0) [
        | inl waits ↦ absurd (ground (arith, is, waits))
        | inr (r, ended) ↦ elim (Result-cases r) [
          | inl (e, failed) ↦ absurd (ground (arith, is, ended, failed))
          | inr (res, done) ↦
              let row =
                submit-Row svc i (world_of s) res fresh works (ground (arith, ended, done)) in
              get_relay-Row svc reader i (world_of s) res caller
                (post_relay a svc app (some req) s).1 app resp.request_id req.callback_metadata row
                reads (ap (λ x. x.1.db) is) (ap (λ x. x.app_id) good.input_is)
                (ground (arith, is, ended, done)) (ap (λ x. x.callback_metadata) good.input_is)
        ]
      ]
    ]
