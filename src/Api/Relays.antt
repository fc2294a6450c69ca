-- ===== src/Api/Relays.antt =====
-- internal/api/relay.go: `postRelay` and `getRelay`.
use txmill.Base.{
  Addresses, ℕ, ℤ, pos, negsuc, ◌||◌, not, [], ◌∷◌, Option, none, some, Bytes, bytes, Result, ok,
  err, new, chain_id_mismatch, past_deadline, request_not_found, length, ltb, if◌then◌else◌,
  trim_space, after_prefix, hex_decode, is_empty,
}
use txmill.Relay.Get.{Status, get}
use txmill.Relay.Service.{Service, SubmitInput, SubmitResult, World, submit}
use txmill.App.Policy.{set_string}
use txmill.Api.{
  System, Message, text, about, RelayRequest, Reply, json, http_error, failed, relayed,
  relay_status, errors_is,
}

abbrev max_callback_metadata_len : ℕ
max_callback_metadata_len = 1024

abbrev without_prefix : Bytes → Option Bytes → Bytes
without_prefix s none = s
without_prefix s (some rest) = rest

abbrev decoded : Option Bytes → Result Bytes
decoded none = err (new "encoding/hex")
decoded (some b) = ok b

-- `decodeHexBytes`; the two errors of `hex.DecodeString` are not told apart.
unfoldable pub decode_hex_bytes : Bytes → Result Bytes
decode_hex_bytes s =
    let digits = without_prefix s (after_prefix (bytes "0x") s) in
    if is_empty digits then ok [] else decoded (hex_decode digits)

abbrev non_negative : Option ℤ → Option ℤ
non_negative none = none
non_negative (some (pos n)) = some (pos n)
non_negative (some (negsuc n)) = none

-- The `value` of a relay request; `none` is a text that is refused.
unfoldable pub parse_value : Bytes → Option ℤ
parse_value [] = some (pos 0)
parse_value (c ∷ s) = non_negative (set_string (c ∷ s))

-- What the checks of `postRelay` come to: a 400, or the input of `Submit`.
pub data Checked : Type 0 where
  refused : Message → Checked
  accepted : SubmitInput → Checked

abbrev submit_input : Addresses → ℕ → RelayRequest → Bytes → ℤ → SubmitInput
submit_input a app req call_data value = record {
  app_id = app;
  chain_id = req.chain_id;
  to = a.hex_to_address req.to;
  call_data = call_data;
  value = some value;
  gas_limit = req.gas_limit;
  deadline = req.deadline;
  callback_url = trim_space req.callback_url;
  callback_metadata = req.callback_metadata;
}

abbrev check_rest : Addresses → ℕ → RelayRequest → Result Bytes → Option ℤ → Checked
check_rest a app req (err e) value = refused (about "data: " e)
check_rest a app req (ok b) none = refused (text "value must be a non-negative decimal string")
check_rest a app req (ok b) (some v) =
    if ltb max_callback_metadata_len (length req.callback_metadata)
    then refused (text "callback_metadata exceeds limit")
    else accepted (submit_input a app req b v)

unfoldable pub check_relay : Addresses → ℕ → Option RelayRequest → Checked
check_relay a app none = refused (text "invalid json body")
check_relay a app (some req) =
    if not (a.is_hex_address req.to)
    then refused (text "to is not a valid address")
    else check_rest a app req (decode_hex_bytes req.call_data) (parse_value req.value)

-- The reply to the result of `Submit`.
abbrev pub relay_reply : Result SubmitResult → Reply
relay_reply (ok res) =
    json 202
      (relayed (record { request_id = res.request_id; tx_hash = res.tx_hash; signer = res.signer }))
relay_reply (err e) =
    if errors_is chain_id_mismatch e || errors_is past_deadline e
    then http_error 400 (about "" e)
    else http_error 502 (about "" e)

-- `none` is a call of `Submit` that still waits.
abbrev pub waiting_or : Option (Result SubmitResult) → Option Reply
waiting_or none = none
waiting_or (some r) = some (relay_reply r)

abbrev pub world_of : System → World
world_of s = record { db = s.db; pool = s.pool; sent = s.sent }

abbrev pub with_world : System → World → System
with_world s w = record s { db = w.db; pool = w.pool; sent = w.sent }

abbrev submitted : System → Option (Result SubmitResult) × World → Option Reply × System
submitted s (r, w) = (waiting_or r, with_world s w)

abbrev run_checked : Service → System → Checked → Option Reply × System
run_checked svc s (refused m) = (some (http_error 400 m), s)
run_checked svc s (accepted i) = submitted s (submit svc i (world_of s))

-- `postRelay`, with the request's JSON, `none` where `Bind` fails; a reply of `none` is a call that
-- still waits for a signer.
unfoldable pub post_relay :
    Addresses → Service → ℕ → Option RelayRequest → System → Option Reply × System
post_relay a svc app req s = run_checked svc s (check_relay a app req)

abbrev status_reply : Result Status → Reply
status_reply (ok st) = json 200 (relay_status st)
status_reply (err e) =
    if errors_is request_not_found e then http_error 404 (text "not found") else failed e

-- `getRelay`
unfoldable pub get_relay : Service → ℕ → ℕ → System → Reply
get_relay svc app id s = status_reply (get svc.pg id app s.db).0
