-- ===== src/Gas/Runs.antt =====
-- internal/gas/worker.go: `Worker.Run`, the loop around `tick`.
use txmill.Base.{ℕ, ℤ, List, Option, Event, run_every}
use txmill.Store.{Postgres}
use txmill.Gas.Worker.{Worker, GasWorld, tick}

-- What the calls of one tick answer.
abbrev pub TickAnswers : Type 0
TickAnswers = Postgres × (ℕ → Worker)

-- An error of a tick is logged, and the loop goes on.
abbrev pub body : TickAnswers → GasWorld → GasWorld
body (pg, at) g = (tick pg at g).1

-- `Worker.Run`
unfoldable pub run : ℤ → List (Event TickAnswers) → GasWorld → Option GasWorld
run interval events g = run_every interval body events g
