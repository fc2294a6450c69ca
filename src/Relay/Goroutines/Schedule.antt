-- ===== src/Relay/Goroutines/Schedule.antt =====
-- internal/relay/service.go: schedules of goroutines, run by evaluation.
use txmill.Base.{
  ℕ, zero, suc, ◌≡◌, refl, ap, inl, inr, List, [], ◌∷◌, ◌++◌, Option, none, some, arith,
  Option-cases,
}
use txmill.Relay.Service.{Service, World}
use txmill.Relay.Goroutines.{Goroutine, advance, System, runs, Reach, next}

-- The next access of the goroutine at a position, if it is there and does not wait.
unfoldable pub advance_at : ℕ → List Goroutine → World → Option (List Goroutine × World)
unfolding advance
advance_at k [] w = none
advance_at zero (g ∷ gs) w = elim (advance g w) [ none ↦ none | some (g', w') ↦ some (g' ∷ gs, w') ]
advance_at (suc k) (g ∷ gs) w = elim (advance_at k gs w) [
  | none ↦ none
  | some (gs', w') ↦ some (g ∷ gs', w')
]

abbrev pick : System → Option (List Goroutine × World) → System
pick a none = a
pick a (some (gs, w)) = record { world = w; running = gs }

-- The goroutines of a system at the positions of a list, in turn; one that waits is passed over.
unfoldable pub schedule : List ℕ → System → System
unfolding advance_at
schedule [] a = a
schedule (k ∷ ks) a = schedule ks (pick a (advance_at k a.running a.world))

record Picked (gs gs' : List Goroutine) (w w' : World) : Type 0 where
  before : List Goroutine
  after : List Goroutine
  g : Goroutine
  g' : Goroutine
  was : gs ≡ before ++ g ∷ after
  moved : advance g w ≡ some (g', w')
  is : gs' ≡ before ++ g' ∷ after

advance_at-Picked :
    (k : ℕ) (gs gs' : List Goroutine) (w w' : World)
    → advance_at k gs w ≡ some (gs', w')
    → Picked gs gs' w w'
unfolding advance_at
advance_at-Picked k [] gs' w w' e = cc
advance_at-Picked zero (x ∷ gs) gs' w w' e = elim (Option-cases (advance x w)) [
  | inl waits ↦ absurd (ground arith)
  | inr ((y, v), m) ↦ record {
    before = [];
    after = gs;
    g = x;
    g' = y;
    was = refl;
    moved = ground arith;
    is = ground arith;
  }
]
advance_at-Picked (suc k) (x ∷ gs) gs' w w' e = elim (Option-cases (advance_at k gs w)) [
  | inl waits ↦ absurd (ground arith)
  | inr ((ys, v), m) ↦
      let p = advance_at-Picked k gs ys w v m in
      record {
        before = x ∷ p.before;
        after = p.after;
        g = p.g;
        g' = p.g';
        was = ap (◌∷◌ x) p.was;
        moved = ground (arith, p.moved);
        is = ground (arith, p.is);
      }
]

-- A schedule is one of the interleavings.
pub schedule-Reach :
    (P : Service → Type 0) (a : System) (ks : List ℕ) (b : System)
    → Reach P a b
    → Reach P a (schedule ks b)
unfolding schedule
schedule-Reach P a [] b r = r
schedule-Reach P a (k ∷ ks) b r =
    schedule-Reach P a ks (pick b (advance_at k b.running b.world)) (one _ refl)
  where
    one :
        (x : Option (List Goroutine × World))
        → advance_at k b.running b.world ≡ x
        → Reach P a (pick b x)
    one none e = r
    one (some (gs, w)) e =
        let p = advance_at-Picked k b.running gs b.world w e in
        next r (runs p.before p.after p.g p.g' p.was p.moved p.is)
