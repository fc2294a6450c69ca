-- ===== src/Relay/Get.antt =====
-- internal/relay/get.go: the status payload of a request, and who may read it.
use txmill.Base.{
  ℕ, ℤ, ◌&&◌, String, List, [], ◌∷◌, Option, none, some, Bytes, Result, ok, err, Error, sentinel,
  request_not_found, wrap, find, select, leb, ◌==◌, if◌then◌else◌,
}
use txmill.Store.{
  Request, RequestStatus, Attempt, Db, Exec, pure, fail, Postgres, select_status, nullif_empty,
  or_empty,
}

-- `Status`. An omitted text field is `none` where it holds a hash, an address or a price, and
-- empty elsewhere.
pub record Status : Type 0 where
  pub request_id : ℕ
  pub status : RequestStatus
  pub tx_hash : Option ℕ
  pub signer : Option ℕ
  pub block_number : Option ℤ
  pub gas_used : Option ℤ
  pub effective_gas_price : Option ℕ
  pub revert_reason : Bytes
  pub logs : Option Bytes
  pub callback_metadata : Bytes
  pub updated_at : ℕ

abbrev later_of : Attempt → Option Attempt → Option Attempt
later_of a none = some a
later_of a (some b) = if leb a.submitted_at b.submitted_at then some b else some a

-- `ORDER BY submitted_at DESC LIMIT 1`; among equal times, the row inserted last.
abbrev pub newest : List Attempt → Option Attempt
newest [] = none
newest (a ∷ rest) = later_of a (newest rest)

-- The lateral join of both queries.
abbrev pub last_attempt : Db → ℕ → Option Attempt
last_attempt d id = newest (select (λ a. a.request_id == id) d.attempts)

-- `if len(logsJSON) > 0`
abbrev pub non_empty : Option Bytes → Option Bytes
non_empty none = none
non_empty (some b) = nullif_empty b

-- The scan of the joined row into `Status`, the same in `GetRaw` and `Get`.
unfoldable pub scan : Request → Option Attempt → Status
scan r none = record {
  request_id = r.id;
  status = r.status;
  tx_hash = none;
  signer = none;
  block_number = none;
  gas_used = none;
  effective_gas_price = none;
  revert_reason = [];
  logs = none;
  callback_metadata = or_empty r.callback_metadata;
  updated_at = r.updated_at;
}
scan r (some a) = record {
  request_id = r.id;
  status = r.status;
  tx_hash = some a.tx_hash;
  signer = some a.signer_address;
  block_number = a.block_number;
  gas_used = a.gas_used;
  effective_gas_price = a.effective_gas_price;
  revert_reason = or_empty a.revert_reason;
  logs = non_empty a.logs;
  callback_metadata = or_empty r.callback_metadata;
  updated_at = r.updated_at;
}

-- `COALESCE(NULLIF(r.callback_url, ''), apps.default_callback_url, '')`
abbrev coalesce : Option Bytes → Option Bytes → Bytes
coalesce none default = or_empty default
coalesce (some []) default = or_empty default
coalesce (some (c ∷ url)) default = c ∷ url

pub record Raw : Type 0 where
  pub payload : Bytes
  pub url : Bytes
  pub secret : Bytes

abbrev encode : Result Bytes → Bytes → Bytes → Result Raw
encode (err e) url secret = err (wrap "get raw marshal" e)
encode (ok body) url secret = ok (record { payload = body; url = url; secret = secret })

abbrev raw_of : (Status → Result Bytes) → Db → Option Request → Exec Db Raw
raw_of marshal d none = fail (sentinel request_not_found)
raw_of marshal d (some r) = elim (find (λ a. a.id == r.app_id) d.apps) [
  | none ↦ fail (sentinel request_not_found)
  | some app ↦ λ s. (
    encode (marshal (scan r (last_attempt d r.id)))
        (coalesce r.callback_url app.default_callback_url) (or_empty app.default_callback_secret),
    s,
  )
]

abbrev label : {A : Type 0} → String → Option Error → Exec Db A → Exec Db A
label text none m d = m d
label text (some e) m d = (err (wrap text e), d)

-- `GetRaw`; `marshal` is `json.Marshal` at `Status`.
unfoldable pub get_raw : Postgres → (Status → Result Bytes) → ℕ → Exec Db Raw
get_raw pg marshal id =
    label "get raw" (pg.failure select_status)
      (λ d. raw_of marshal d (find (λ r. r.id == id) d.requests) d)

abbrev status_of : Db → Option Request → Exec Db Status
status_of d none = fail (sentinel request_not_found)
status_of d (some r) = pure (scan r (last_attempt d r.id))

unfoldable pub get : Postgres → ℕ → ℕ → Exec Db Status
get pg id app =
    label "get relay" (pg.failure select_status)
      (λ d. status_of d (find (λ r. r.id == id && r.app_id == app) d.requests) d)
