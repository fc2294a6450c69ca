-- ===== src/Relay/Goroutines/Tests.antt =====
-- Two goroutines in `Submit` of internal/relay/service.go that share one signer.
use txmill.Base.{
  false, ℕ, ◌+◌, ◌≡◌, ◌*◌, ◌<◌, refl, List, [], ◌∷◌, ◌++◌, Option, none, some, ok, Error, new, pos,
  arith,
}
use txmill.Signer.{use_nonce, rewind_nonce}
use txmill.Signer.Pool.{
  SignerRef, new_pool, hydrate, fetch, install, checkout, release, deref, store,
}
use txmill.Relay.Chain.{Chain, SignTx, KeepsReplies}
use txmill.Relay.Effects.{SignsIts}
use txmill.Relay.Service.{
  Service, SubmitInput, World, validate, insert_request, insert_attempt, mark_attempt_status,
  mark_submitted, fire_webhook, gas_limit_for, buffered,
}
use txmill.Relay.Goroutines.{
  Goroutine, entering, waiting, reserved, advance, System, arrives, Reach, here, next, started,
}
use txmill.Relay.Goroutines.Serial.{InOrder, goroutines-InOrder}
use txmill.Relay.Goroutines.Progress.{rank, holder-advances}
use txmill.Relay.Goroutines.Schedule.{advance_at, schedule, schedule-Reach}

abbrev chain_with : Option Error → Chain
chain_with answer = record {
  chain_id = 1;
  estimate_gas = λ m. ok 30000;
  suggest_gas_price = ok 5;
  send_transaction = λ x. answer;
  lost_reply = λ x. false;
}

abbrev sign_tx : SignTx
sign_tx chain tx key = ok (record { tx = tx; from = key; hash = 1000 * tx.to + tx.nonce })

sign_tx-SignsIts : SignsIts sign_tx
sign_tx-SignsIts chain tx key x e = ground arith

abbrev service_with : Option Error → ℕ → Service
service_with answer id = record {
  pg = record {
    now = 50;
    new_id = λ s. id;
    failure = λ s. none;
    unique_violation = Error.foreign 23505;
  };
  chain = chain_with answer;
  backends = record {
    list_signers = λ app. ok (100 ∷ []);
    load_key = λ address. ok 500;
    pending_nonce_at = λ address. ok 7;
  };
  sign_tx = sign_tx;
  webhooks = none;
  unix_now = 0;
  cancelled = none;
}

abbrev input_to : ℕ → SubmitInput
input_to address = record {
  app_id = 1;
  chain_id = 1;
  to = address;
  call_data = [];
  value = none;
  gas_limit = 0;
  deadline = pos 0;
  callback_url = [];
  callback_metadata = [];
}

abbrev empty_world : World
empty_world = record {
  db = record {
    apps = [];
    signers = [];
    requests = [];
    attempts = [];
    deliveries = [];
    gas_attempts = [];
  };
  pool = [];
  sent = [];
}

abbrev Tested : Service → Type 0
Tested s = SignsIts s.sign_tx × KeepsReplies s.chain

service_with-Tested : (answer : Option Error) (id : ℕ) → Tested (service_with answer id)
service_with-Tested answer id = (sign_tx-SignsIts, λ x e h. refl)

-- The node refuses the first call's transaction, and takes the second's.
abbrev refused_call : Goroutine
refused_call = entering (service_with (some (new "underpriced")) 8) (input_to 77)

abbrev accepted_call : Goroutine
accepted_call = entering (service_with none 9) (input_to 78)

abbrev one_call : System
one_call = record { world = empty_world; running = refused_call ∷ [] }

abbrev two_calls : System
two_calls = record { world = empty_world; running = accepted_call ∷ refused_call ∷ [] }

empty_world-new_pool : empty_world.pool ≡ new_pool
unfolding new_pool
empty_world-new_pool = refl

two_calls-Reach : Reach Tested (started empty_world) two_calls
two_calls-Reach =
    next {b = one_call}
      (next {b = started empty_world} here (
        arrives (service_with (some (new "underpriced")) 8) (input_to 77)
          (service_with-Tested (some (new "underpriced")) 8) refl refl))
      (arrives (service_with none 9) (input_to 78) (service_with-Tested none 9) refl refl)

-- Both find the app absent and fetch its signers; the first gets the signer while the second waits,
-- and the second goes on as far as its accepted transaction once it is back.
abbrev meanwhile : List ℕ
meanwhile = 1 ∷ 1 ∷ 0 ∷ 0 ∷ 1 ∷ 0 ∷ 1 ∷ 0 ∷ 1 ∷ 1 ∷ []

abbrev afterwards : List ℕ
afterwards = 1 ∷ 1 ∷ 1 ∷ 1 ∷ 1 ∷ 1 ∷ 0 ∷ 0 ∷ 0 ∷ 0 ∷ 0 ∷ 0 ∷ []

abbrev ref : SignerRef
ref = record { app_id = 1; index = 0 }

abbrev late : System
late = schedule (meanwhile ++ afterwards) two_calls

late-deref :
    deref late.world.pool ref ≡ some (record { app_id = 1; address = 100; key = 500; nonce = 8 })
unfolding schedule advance_at advance validate insert_request fetch hydrate install checkout release
    deref store use_nonce rewind_nonce gas_limit_for buffered insert_attempt mark_attempt_status
    mark_submitted fire_webhook
late-deref = refl

goroutines-InOrder_example :
    InOrder ref (record { app_id = 1; address = 100; key = 500; nonce = 8 }) late
goroutines-InOrder_example =
    goroutines-InOrder Tested ref empty_world late
      (record { app_id = 1; address = 100; key = 500; nonce = 8 }) (λ s h. h) empty_world-new_pool
      refl
      (schedule-Reach Tested (started empty_world) (meanwhile ++ afterwards) two_calls
        two_calls-Reach)
      late-deref

-- Meanwhile the one waits and the other has reserved a nonce.
abbrev busy : System
busy = schedule meanwhile two_calls

abbrev waits : Goroutine
waits = waiting (service_with none 9) (input_to 78) 9

abbrev holds : Goroutine
holds = reserved (service_with (some (new "underpriced")) 8) (input_to 77) 8 ref 36000 5 7

busy-running : busy.running ≡ waits ∷ holds ∷ []
unfolding schedule advance_at advance validate insert_request fetch hydrate install checkout release
    deref store use_nonce gas_limit_for buffered
busy-running = refl

holder-advances_example :
    (g' : Goroutine) × (w' : World) × (advance holds busy.world ≡ some (g', w'))
    × (rank g' < rank holds)
holder-advances_example =
    holder-advances Tested empty_world busy (waits ∷ []) [] holds ref empty_world-new_pool
      (schedule-Reach Tested (started empty_world) meanwhile two_calls two_calls-Reach) busy-running
      refl
