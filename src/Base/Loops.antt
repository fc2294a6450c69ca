-- ===== src/Base/Loops.antt =====
-- The loops of the workers' `Run`: a ticker, and a context that ends.
use mathlib.Core.List.{List, [], ◌∷◌}
use mathlib.Core.Option.{Option, none, some}
use mathlib.Core.Bool.{Bool, false}
use txmill.Base.Int.{ℤ, pos, negsuc}
use txmill.Base.Tests.{ltb, if◌then◌else◌}

-- What a `select` of a loop finds: a tick, with what its calls answer, or the end of the context.
pub data Event {ℓ} (A : Type ℓ) : Type ℓ where
  ticked : A → Event A
  done : Event A

-- The state after the events so far: `done` returns.
unfoldable pub loop {ℓ κ} : {A : Type ℓ} {S : Type κ} → (A → S → S) → List (Event A) → S → S
loop body [] s = s
loop body (done ∷ rest) s = s
loop body (ticked a ∷ rest) s = loop body rest (body a s)

-- The ticks before the end.
abbrev pub ticks_before {ℓ} : {A : Type ℓ} → List (Event A) → List A
ticks_before [] = []
ticks_before (done ∷ rest) = []
ticks_before (ticked a ∷ rest) = a ∷ ticks_before rest

-- `time.NewTicker` panics at an interval that is not positive.
abbrev pub is_positive : ℤ → Bool
is_positive (pos n) = ltb 0 n
is_positive (negsuc n) = false

-- `Run` up to now; `none` is the panic.
unfoldable pub run_every {ℓ κ} :
    {A : Type ℓ} {S : Type κ} → ℤ → (A → S → S) → List (Event A) → S → Option S
unfolding loop
run_every interval body events s = if is_positive interval then some (loop body events s) else none
