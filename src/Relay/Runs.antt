-- ===== src/Relay/Runs.antt =====
-- internal/relay/watcher.go: `Watcher.Run`, the loop around `tick`.
use txmill.Base.{ℕ, ℤ, ◌≡◌, refl, List, [], ◌∷◌, map, Option, Event, loop, ticks_before, run_every}
use txmill.Store.{Db, Postgres}
use txmill.Relay.Service.{World}
use txmill.Relay.Watcher.{Watcher, tick}
use txmill.Relay.Lifecycle.{Step, ticks_once, history}

-- What the calls of one tick answer.
abbrev pub TickAnswers : Type 0
TickAnswers = Postgres × (ℕ → Watcher)

-- An error of a tick is logged, and the loop goes on.
abbrev pub body : ℕ → TickAnswers → Db → Db
body batch_size (pg, at) d = (tick pg batch_size at d).1

-- `Watcher.Run`
unfoldable pub run : ℤ → ℕ → List (Event TickAnswers) → Db → Option Db
run interval batch_size events d = run_every interval (body batch_size) events d

abbrev as_step : ℕ → TickAnswers → Step
as_step n (pg, at) = ticks_once pg n at

-- What the loop leaves is the history of its ticks.
pub loop-history :
    (n : ℕ) (events : List (Event TickAnswers)) (w : World)
    → loop (body n) events w.db ≡ (history (map (as_step n) (ticks_before events)) w).db
unfolding loop
loop-history n [] w = refl
loop-history n (Event.done ∷ rest) w = refl
loop-history n (Event.ticked (pg, at) ∷ rest) w =
    loop-history n rest (record w { db = (tick pg n at w.db).1 })
