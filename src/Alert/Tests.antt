-- ===== src/Alert/Tests.antt =====
-- The theorems on internal/alert/throttle.go at a short history.
use txmill.Base.{bytes_eq, ℕ, ◌≡◌, List, [], ◌∷◌, none, some, refl, bytes, if◌then◌else◌}
use txmill.Alert.{Alert, Level, Throttled, admit}
use txmill.Alert.Spacing.{passes, SpacedAfter, passes-SpacedAfter}

abbrev alert : Alert
alert = record {
  key = bytes "treasury";
  level = Level.warn;
  title = bytes "low";
  message = [];
  tags = [];
}

abbrev throttled : Throttled
throttled = record {
  interval = 1000;
  sent = λ key. if bytes_eq alert.key key then some 5000 else none;
}

abbrev history : List (ℕ × Alert)
history = (5500, alert) ∷ (6100, alert) ∷ (6200, alert) ∷ (9000, alert) ∷ []

passes-SpacedAfter_example :
    SpacedAfter 1000 (throttled.sent alert.key) (passes alert.key throttled history)
passes-SpacedAfter_example = passes-SpacedAfter alert.key history throttled

passed_times : passes alert.key throttled history ≡ 6100 ∷ 9000 ∷ []
unfolding passes admit bytes_eq
passed_times = refl
