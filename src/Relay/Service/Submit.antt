-- ===== src/Relay/Service/Submit.antt =====
-- `Service.Submit` of internal/relay/service.go, from validation to broadcast.
use txmill.Base.{
  ℕ, pos, ◌*◌, ◌/◌, ◌%◌, ◌^◌, ◌&&◌, not, String, List, [], ◌∷◌, ◌++◌, Option, none, some, Result,
  ok, err, Error, sentinel, chain_id_mismatch, past_deadline, wrap, ltb_ℤ, ◌==◌, if◌then◌else◌,
}
use txmill.Store.{RequestStatus, AttemptStatus, Db, Exec, ◌>>=◌}
use txmill.Signer.{Signer, use_nonce, rewind_nonce}
use txmill.Signer.Pool.{Pool, SignerRef, load, checkout, release, deref, store}
use txmill.Relay.Chain.{CallMsg, Tx, Signed}
use txmill.Relay.Service.Types.{Service, SubmitInput, SubmitResult, Sent, World}
use txmill.Relay.Service.Statements.{
  insert_request, insert_attempt, mark_request_status, mark_attempt_status, mark_submitted,
  fire_webhook, value_of,
}

unfoldable pub validate : Service → SubmitInput → Result (Unit {0})
validate s i =
    if not (i.chain_id == s.chain.chain_id % 2 ^ 64)
    then err (sentinel chain_id_mismatch)
    else if ltb_ℤ (pos 0) i.deadline && ltb_ℤ i.deadline (pos s.unix_now)
    then err (sentinel past_deadline)
    else ok tt

-- `_ = s.markRequestStatus(ctx, requestID, "rejected")`
abbrev pub reject : Service → ℕ → World → World
reject s id w = record w { db = (mark_request_status s id RequestStatus.rejected w.db).1 }

abbrev or_reject : {A : Type 0} → Service → ℕ → String → Result A → Exec World A
or_reject s id text (ok a) w = (ok a, w)
or_reject s id text (err e) w = (err (wrap text e), reject s id w)

abbrev pub write_signer : SignerRef → Signer → World → World
write_signer ref v w = record w { pool = store w.pool ref v }

-- `est * gasLimitBufferNumerator / gasLimitBufferDenominator`, on uint64.
unfoldable pub buffered : ℕ → ℕ
buffered est = est * 12 % 2 ^ 64 / 10

abbrev buffer : Result ℕ → Result ℕ
buffer (err e) = err e
buffer (ok est) = ok (buffered est)

abbrev pub call_msg : Signer → SubmitInput → CallMsg
call_msg sig i = record {
  from = sig.address;
  to = i.to;
  value = value_of i.value;
  call_data = i.call_data;
}

unfoldable pub gas_limit_for : Service → Signer → SubmitInput → Result ℕ
unfolding buffered
gas_limit_for s sig i =
    if i.gas_limit == 0 then buffer (s.chain.estimate_gas (call_msg sig i)) else ok i.gas_limit

abbrev pub transaction_for : SubmitInput → ℕ → ℕ → ℕ → Tx
transaction_for i nonce gas price = record {
  nonce = nonce;
  to = i.to;
  value = value_of i.value;
  gas_limit = gas;
  gas_price = price;
  call_data = i.call_data;
}

abbrev rewound : {A : Type 0} → SignerRef → Signer → String → Error → Exec World A
rewound ref sig text e w = (err (wrap text e), write_signer ref (rewind_nonce sig) w)

-- What the node has taken after a call of `SendTransaction` that ended with an error.
abbrev pub despite_error : Service → SignerRef → Signed → List Sent → List Sent
despite_error s ref x sent =
    if s.chain.lost_reply x then sent ++ record { by = ref; signed = x } ∷ [] else sent

-- `SendTransaction` and what follows it; `sig` has the reserved nonce counted in.
unfoldable pub broadcast : Service → SignerRef → Signer → Signed → ℕ → ℕ → Exec World SubmitResult
broadcast s ref sig signed request attempt w = elim (s.chain.send_transaction signed) [
  | some e ↦ rewound ref sig "submit" e (record w {
    db = (mark_attempt_status s attempt AttemptStatus.failed w.db).1;
    sent = despite_error s ref signed w.sent;
  })
  | none ↦
      let w' = record w { sent = w.sent ++ record { by = ref; signed = signed } ∷ [] } in
      let (r, d) = mark_submitted s request attempt w'.db in
      elim r [
        | err e ↦ (err (wrap "mark submitted" e), record w' { db = d })
        | ok _ ↦ (
          ok (record { request_id = request; tx_hash = signed.hash; signer = sig.address }),
          record w' { db = fire_webhook s.webhooks request d },
        )
      ]
]

unfoldable pub record_attempt :
    Service → SignerRef → Signer → Signed → ℕ → ℕ → ℕ → Exec World SubmitResult
record_attempt s ref sig signed nonce price request w =
    let (r, d) = insert_attempt s.pg request sig.address nonce signed.hash price w.db in
    elim r [
      | err e ↦ rewound ref sig "insert attempt" e (record w { db = d })
      | ok attempt ↦ broadcast s ref sig signed request attempt (record w { db = d })
    ]

-- From the reserved nonce to the end.
unfoldable pub sign_and_send :
    Service → SubmitInput → SignerRef → Signer → ℕ → ℕ → ℕ → Exec World SubmitResult
sign_and_send s i ref sig gas price request w =
    let (nonce, sig') = use_nonce sig in
    let w' = write_signer ref sig' w in
    elim (s.sign_tx s.chain.chain_id (transaction_for i nonce gas price) sig.key) [
      | err e ↦ rewound ref sig' "sign" e w'
      | ok signed ↦ record_attempt s ref sig' signed nonce price request w'
    ]

-- What `Submit` does with a signer in its hands.
unfoldable pub relay_with : Service → SubmitInput → SignerRef → Signer → ℕ → Exec World SubmitResult
relay_with s i ref sig request = do
  gas ← or_reject s request "estimate gas" (gas_limit_for s sig i)
  price ← or_reject s request "suggest gas price" s.chain.suggest_gas_price
  sign_and_send s i ref sig gas price request

-- The deferred `Release`; `none` means that the call is still blocked.
abbrev pub finish : SignerRef → Result SubmitResult × World → Option (Result SubmitResult) × World
finish ref (r, w) = elim (release w.pool ref) [
  | none ↦ (none, w)
  | some p ↦ (some r, record w { pool = p })
]

-- A checked-out `*Signer` is never nil; the first case stands for a panic.
abbrev pub hold :
    Service
    → SubmitInput
    → ℕ
    → SignerRef
    → Option Signer
    → World
    → Option (Result SubmitResult) × World
hold s i request ref none w = (none, w)
hold s i request ref (some sig) w = finish ref (relay_with s i ref sig request w)

abbrev pub after_checkout :
    Service
    → SubmitInput
    → ℕ
    → World
    → Option (Result SignerRef × Pool)
    → Option (Result SubmitResult) × World
after_checkout s i request w none = (none, w)
after_checkout s i request w (some (err e, p)) =
    (some (err (wrap "checkout" e)), reject s request (record w { pool = p }))
after_checkout s i request w (some (ok ref, p)) =
    hold s i request ref (deref p ref) (record w { pool = p })

abbrev pub after_load :
    Service
    → SubmitInput
    → ℕ
    → World
    → Result (Unit {0}) × Pool
    → Option (Result SubmitResult) × World
after_load s i request w (err e, p) =
    (some (err (wrap "load signer pool" e)), reject s request (record w { pool = p }))
after_load s i request w (ok _, p) =
    after_checkout s i request (record w { pool = p }) (checkout p i.app_id s.cancelled)

abbrev pub after_insert :
    Service → SubmitInput → World → Result ℕ × Db → Option (Result SubmitResult) × World
after_insert s i w (err e, d) = (some (err (wrap "insert request" e)), record w { db = d })
after_insert s i w (ok request, d) =
    after_load s i request (record w { db = d }) (load s.backends w.pool i.app_id)

abbrev after_validate :
    Service → SubmitInput → World → Result (Unit {0}) → Option (Result SubmitResult) × World
after_validate s i w (err e) = (some (err e), w)
after_validate s i w (ok _) = after_insert s i w (insert_request s.pg i w.db)

-- `Service.Submit`. `none` means that the call still waits for an idle signer.
unfoldable pub submit : Service → SubmitInput → World → Option (Result SubmitResult) × World
submit s i w = after_validate s i w (validate s i)
