-- ===== src/Api/Bodies.antt =====
-- internal/api/relay.go: which bodies `postRelay` passes on to `Submit`, and what a client gets to see
-- of a request that it posted.
use txmill.Base.{
  Addresses, ℕ, ℤ, pos, negsuc, ◌≤◌, refl, ◌≡◌, ◌⊎◌, inl, inr, true, ◌++◌, some, Bytes, bytes, ok,
  length, All, arith, IsByte, hex_encode, hex_decode-hex_encode, after_prefix, Bool-cases,
  Option-cases, Result-cases, trim_space, [], ◌∷◌,
}
use txmill.Relay.Service.{Service, SubmitInput, submit}
use txmill.Api.{System, RelayRequest, Message, http_error}
use txmill.Api.Relays.{
  decode_hex_bytes, parse_value, Checked, refused, accepted, check_relay, waiting_or as replied,
  world_of, with_world, post_relay,
}

-- The hex text of any bytes, behind `0x`, is read back as those bytes.
pub decode_hex_bytes-hex_encode :
    (s : Bytes) → All IsByte s → decode_hex_bytes (bytes "0x" ++ hex_encode s) ≡ ok s
unfolding decode_hex_bytes hex_encode after_prefix
decode_hex_bytes-hex_encode [] h = refl
decode_hex_bytes-hex_encode (b ∷ s) h = ground (arith, hex_decode-hex_encode (b ∷ s) h)

-- What `Submit` gets from a request of the app: an address, the decoded data, a value that is not
-- negative and at most 1024 bytes of metadata.
pub record IsInput (a : Addresses) (app : ℕ) (req : RelayRequest) (i : SubmitInput) : Type 0 where
  pub amount : ℕ
  pub address : a.is_hex_address req.to ≡ true
  pub parsed : parse_value req.value ≡ some (pos amount)
  pub decoded : decode_hex_bytes req.call_data ≡ ok i.call_data
  pub short : length i.callback_metadata ≤ 1024
  pub input_is : i ≡ record {
    app_id = app;
    chain_id = req.chain_id;
    to = a.hex_to_address req.to;
    call_data = i.call_data;
    value = some (pos amount);
    gas_limit = req.gas_limit;
    deadline = req.deadline;
    callback_url = trim_space req.callback_url;
    callback_metadata = req.callback_metadata;
  }

parse_value-pos : (text : Bytes) (v : ℤ) → parse_value text ≡ some v → (n : ℕ) × (v ≡ pos n)
unfolding parse_value
parse_value-pos text (pos n) h = (n, refl)
parse_value-pos [] (negsuc n) h = absurd (ground arith)
parse_value-pos (c ∷ text) (negsuc n) h = absurd (ground arith)

check_relay-IsInput :
    (a : Addresses) (app : ℕ) (req : RelayRequest) (i : SubmitInput)
    → check_relay a app (some req) ≡ accepted i
    → IsInput a app req i
unfolding check_relay
check_relay-IsInput a app req i h = elim (Bool-cases (a.is_hex_address req.to)) [
  | inr bad ↦ absurd (ground arith)
  | inl address ↦ elim (Result-cases (decode_hex_bytes req.call_data)) [
    | inl (e, bad) ↦ absurd (ground arith)
    | inr (b, decoded) ↦ elim (Option-cases (parse_value req.value)) [
      | inl bad ↦ absurd (ground arith)
      | inr (v, parsed) ↦
          let (n, is) = parse_value-pos req.value v parsed in
          record {
            amount = n;
            address = address;
            parsed = ground arith;
            decoded = ground arith;
            short = ground arith;
            input_is = ground arith;
          }
    ]
  ]
]

abbrev pub Posted : Addresses → Service → ℕ → RelayRequest → System → Type 0
Posted a svc app req s =
    (i : SubmitInput) × IsInput a app req i
    × (post_relay a svc app (some req) s
        ≡ (replied (submit svc i (world_of s)).0, with_world s (submit svc i (world_of s)).1))

-- `POST /v1/relay` either is refused with 400 and changes nothing, or passes an input on to `Submit`
-- for the app of the token: a hex address, the decoded data, a value that is not negative, at most
-- 1024 bytes of metadata, and the rest as it came. The reply and the changes are then those of
-- `Submit`.
pub post_relay_lem :
    (a : Addresses) (svc : Service) (app : ℕ) (req : RelayRequest) (s : System)
    → ((m : Message) × (post_relay a svc app (some req) s ≡ (some (http_error 400 m), s)))
      ⊎ Posted a svc app req s
unfolding post_relay
post_relay_lem a svc app req s = by_check (check_relay a app (some req)) refl
  where
    by_check :
        (c : Checked)
        → check_relay a app (some req) ≡ c
        → ((m : Message) × (post_relay a svc app (some req) s ≡ (some (http_error 400 m), s)))
          ⊎ Posted a svc app req s
    by_check (refused m) e = inl (m, ground (arith, e))
    by_check (accepted i) e = inr (i, check_relay-IsInput a app req i e, ground (arith, e))
