-- ===== src/Lib.antt =====
-- A verification library for txmill, a relay that signs and sends Ethereum transactions for
-- registered apps. The library models the core of the Go program (internal/), each part as functions
-- on explicit states, and proves what makes the parts correct.
--
-- How the parts interact. An API call reaches `Submit` (internal/relay/service.go), which stores a
-- request, borrows one of the app's signers from the pool (internal/signer), reserves a nonce, signs,
-- stores an attempt, broadcasts, and marks both rows. A watcher (internal/relay/watcher.go) polls for
-- receipts and records them. Changes of a request's status are snapshotted as signed webhook
-- deliveries (internal/webhook), which a worker posts with backoff. A gas worker (internal/gas) tops
-- up signers from the app's treasury and raises alerts (internal/alert) when the treasury is low. The
-- HTTP API (internal/api) authenticates the apps that internal/app registers; their keys are encrypted
-- files (internal/keystore); cmd/txmill starts all of it from the environment (internal/config).
--
-- Files:
--   Base        lists, integers, Go errors and results, texts and their hex form, Boolean tests and
--               their case splits
--   Store       migrations/*.sql: the tables as records of rows (Store/Schema), SQL statements as
--               actions that the database may refuse, transactions that roll back
--   Signer      internal/signer/signer.go: `Signer`, `use_nonce`, `rewind_nonce`, `reset_nonce`
--   Signer/Pool internal/signer/pool.go: `load`, `checkout`, `release`, `size`; a `*Signer` is an app
--               and a position, so the channel of idle signers and the slice share one signer.
--               Signer/Sharing holds the step relation of goroutines, one atomic call for each step
--   Relay/Service internal/relay/service.go: `submit` and its statements (Types, Statements, Submit);
--               Relay/Courses splits a call by its course, Relay/Effects, Relay/Nonces, Relay/Marks,
--               Relay/Outcome and Relay/Retry hold the proofs; Relay/Sends is about what a call sends,
--               Relay/Refusals about the errors that it passes on, Relay/Lost about a broadcast whose
--               reply is lost, Relay/Shape and Relay/Returns about the signer that it gives back, and
--               Relay/Rows and Relay/Appends about the rows that it changes
--   Relay/Goroutines the same `Submit` as goroutines run it: where a goroutine stands is a data type, and
--               `advance` makes its next access to the shared pool, database or chain. Alone (with
--               Endings) compares a goroutine that runs alone with `submit`; Held and Handling are about
--               the signers that goroutines hold, Moves, Signing, Advances, Counting, Order and Serial
--               about their nonces, Progress about waiting, and Schedule runs schedules
--   Relay/Enqueuer the interface `WebhookEnqueuer`, with what the relay relies on; the instance for
--               internal/webhook is in Webhook/Snapshots
--   Relay/Get   internal/relay/get.go: `get`, `get_raw`; proofs in Relay/Reading
--   Relay/Watcher, Relay/Revert internal/relay/watcher.go: `tick`, `process`, `clean_revert_string`;
--               proofs in Relay/Receipts. Relay/Quiet, Relay/Settled and Relay/Lifecycle are about
--               histories of calls and ticks, Relay/Runs about `Run`, and Relay/References,
--               Relay/Goroutines/Filed and Relay/Integrity about the requests that attempts refer to
--   Relay/Recovery internal/relay/recovery.go: `recover`, with its proofs
--   Webhook     internal/webhook/webhook.go: Webhook/Enqueue is `Service`, Webhook/Worker is `Worker`;
--               proofs in Retries, Lifecycle, Batches and Snapshots. Webhook/Runs is `Worker.Run`
--   Alert       internal/alert/throttle.go, multi.go and alert.go, with proofs in Alert/Spacing;
--               Alert/Transports is telegram.go and webhook.go
--   Gas         internal/gas/worker.go: Gas/Worker, and Gas/Runs for `Run`; proofs in Gas/Refills
--   App         internal/app: App/Policy is `validateGasPolicy`, App/Create is `Create`, `insert` and
--               `Authenticate`, App/Accounts is `Accounts` and `ListSigners`; proofs in App/Policy,
--               App/Stages, App/Created, App/Access and App/Accounts
--   Treasury    internal/treasury/sweep.go: `sweep`; proofs in Treasury/Balance
--   Api         internal/api: Api/Relays, Api/Accounts, Api/Auth and Api/Router are the handlers, the
--               bearer middleware and `NewRouter`, on one state of the whole server (`System`);
--               proofs in Guards, Bodies, Posted, Served and Onboarding
--   Keystore    internal/keystore/keystore.go: Keystore/Files is the directory, Keystore/Keys is `New`,
--               `Generate`, `Load`, `List` and `write`; proofs in Names, Kept, History, Listing and
--               Loading
--   Provision   how `Create`, the keystore and the pool's `Load` work together for a new app
--   Config      internal/config/config.go; proofs in Config/Numbers
--   Start       cmd/txmill/main.go up to the HTTP server, with `NewPool` of internal/store/db.go and
--               `Dial` of internal/chain/client.go; proofs in Start/Ready. Start/Client is the rest of
--               client.go, Start/AlertTest is cmd/alert-test/main.go
--   Tests modules hold runs of the theorems on concrete data.
--
-- Choices. Addresses, hashes and UUIDs are numbers, texts are lists of bytes, times are milliseconds
-- (Unix seconds in `Submit`). A uint64 wraps at 2 ^ 64 in writing; `*big.Int` is an unbounded integer.
-- The database, the node, the keystore, the signing library, HMAC, JSON, HTTP and random bytes are
-- parameters: what they answer during one call is a record of functions (`Postgres`, `Chain`,
-- `Backends`, `Watcher`, `Surroundings`, `Worker`, `Treasury`, `Service`, `Libraries`, `Answers`),
-- and any statement may fail. Where a loop makes a call for each element, a function gives each element
-- its own answers. An error's label is kept without the values that the source formats into it. A
-- panic is a result of its own (`none`, or `panicked`). All loops are over finite lists and are structural
-- recursion, so no fuel is used, except for decimal numerals (`decimal n` takes n + 1 as its fuel, and n
-- has no more than n + 1 digits) and in `alone`, which counts the steps of a goroutine: 12 are
-- enough. A worker's `Run` is a loop over the events that its `select` has met so far, the ticks and the
-- end of the context. In Relay/Goroutines a database statement or transaction, a call of the node and each
-- critical section or channel operation of the pool is one atomic step; a goroutine takes what its own
-- calls of the node and the database answer from its `Service`. A call of `SendTransaction` in `Submit`
-- that ends with an error may have reached the node: `lost_reply` of `Chain` says of which transactions,
-- and those count as sent. The theorems on the order of nonces assume that there are none; Relay/Lost is
-- about them. In internal/gas and internal/treasury such an error counts as not sent.
--
-- Not modelled: logging, SQL planning (a query is its result on the tables), foreign keys and CHECK
-- constraints, the shutdown, the tool cmd/migrate (it hands its arguments to goose), and the support for
-- integration tests (internal/store/dbtest). JSON is a parsed body, or none where it does not parse. A
-- context that ends is an error of the wait in `Checkout` and of the statements and calls that the model
-- lets fail. The interleavings of the watcher with `Submit` are modelled call by call, not step by step.
pub mod Base
pub mod Store
pub mod Signer
pub mod Relay
pub mod Webhook
pub mod Alert
pub mod Gas
pub mod Treasury
pub mod App
pub mod Api
pub mod Keystore
pub mod Provision
pub mod Config
pub mod Start
