-- ===== src/Webhook/Runs.antt =====
-- internal/webhook/webhook.go: `Worker.Run`, the loop around `tick`.
use txmill.Base.{
  ℕ, ℤ, ◌≡◌, ◌≢◌, sym, ◌∙◌, true, List, [], ◌∷◌, Option, some, All, arith, Event, loop, is_positive,
  run_every,
}
use txmill.Store.{Db, Delivery, Postgres}
use txmill.Webhook.Worker.{Surroundings, tick}
use txmill.Webhook.Retries.{IsSound}
use txmill.Webhook.Lifecycle.{Evolves, Evolves-refl, Evolves-trans}
use txmill.Webhook.Batches.{DistinctIds, tick-IsSound}

-- What the calls of one tick answer.
abbrev pub TickAnswers : Type 0
TickAnswers = Postgres × (ℕ → Surroundings)

-- An error of a tick is logged, and the loop goes on.
abbrev pub body : ℕ → TickAnswers → Db → Db
body batch_size (pg, at) db = (tick pg batch_size at db).1

-- `Worker.Run`
unfoldable pub run : ℤ → ℕ → List (Event TickAnswers) → Db → Option Db
run interval batch_size events db = run_every interval (body batch_size) events db

Evolves-ids :
    (r : Delivery) (xs ys : List Delivery)
    → Evolves xs ys
    → All (λ y. y.id ≢ r.id) xs
    → All (λ y. y.id ≢ r.id) ys
Evolves-ids r [] [] e h = tt
Evolves-ids r [] (y ∷ ys) e h = absurd e
Evolves-ids r (x ∷ xs) [] e h = absurd e
Evolves-ids r (x ∷ xs) (y ∷ ys) e h =
    (λ same. h.0 (sym e.0.same_id ∙ same), Evolves-ids r xs ys e.1 h.1)

-- A tick keeps the primary key.
Evolves-DistinctIds : (xs ys : List Delivery) → Evolves xs ys → DistinctIds xs → DistinctIds ys
Evolves-DistinctIds [] [] e h = tt
Evolves-DistinctIds [] (y ∷ ys) e h = absurd e
Evolves-DistinctIds (x ∷ xs) [] e h = absurd e
Evolves-DistinctIds (x ∷ xs) (y ∷ ys) e h =
    (All-other ys (Evolves-ids x xs ys e.1 h.0), Evolves-DistinctIds xs ys e.1 h.1)
  where
    All-other : (zs : List Delivery) → All (λ z. z.id ≢ x.id) zs → All (λ z. z.id ≢ y.id) zs
    All-other [] k = tt
    All-other (z ∷ zs) k = (λ same. k.0 (same ∙ e.0.same_id), All-other zs k.1)

loop-IsSound :
    (n : ℕ) (events : List (Event TickAnswers)) (db : Db)
    → DistinctIds db.deliveries
    → All IsSound db.deliveries
    → All IsSound (loop (body n) events db).deliveries
      × Evolves db.deliveries (loop (body n) events db).deliveries
unfolding loop
loop-IsSound n [] db d s = (s, Evolves-refl db.deliveries)
loop-IsSound n (Event.done ∷ rest) db d s = (s, Evolves-refl db.deliveries)
loop-IsSound n (Event.ticked (pg, at) ∷ rest) db d s =
    let db' = (tick pg n at db).1 in
    let (sound, step) = tick-IsSound pg n at db d s in
    let (end, steps) =
      loop-IsSound n rest db' (Evolves-DistinctIds db.deliveries db'.deliveries step d) sound in
    (end, Evolves-trans db.deliveries db'.deliveries _ step steps)

-- With a positive interval, `Run` of the worker over rows with distinct ids, for as long as it has run,
-- whatever the receivers answer and whichever statements fail: no row is attempted more than
-- five times, a row is pending only below five attempts and dead only at five, a delivered or dead
-- row never changes again, and what a row delivers, and where, never changes.
pub run-IsSound :
    (interval : ℤ) (batch_size : ℕ) (events : List (Event TickAnswers)) (db : Db)
    → is_positive interval ≡ true
    → DistinctIds db.deliveries
    → All IsSound db.deliveries
    → (db' : Db) × (run interval batch_size events db ≡ some db')
      × All IsSound db'.deliveries
      × Evolves db.deliveries db'.deliveries
unfolding run run_every
run-IsSound interval n events db ticks d s =
    let (sound, steps) = loop-IsSound n events db d s in
    (loop (body n) events db, ground arith, sound, steps)
