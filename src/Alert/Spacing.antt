-- ===== src/Alert/Spacing.antt =====
-- internal/alert/throttle.go: what the throttle lets through over a history of alerts.
use txmill.Base.{
  bytes_eq, bytes_eq-eq, ℕ, ◌+◌, ◌≤◌, ◌<◌, ◌≡◌, ◌⊎◌, subst, ltb, Option-cases, true, false, ◌&&◌,
  List, [], ◌∷◌, Option, none, some, Bytes, arith, inl, inr, Bool-cases, if◌then◌else◌,
}
use txmill.Alert.{Alert, Throttled, admit}

-- The times at which alerts with key `k` go through, over a history of alerts with their times.
unfoldable pub passes : Bytes → Throttled → List (ℕ × Alert) → List ℕ
passes k t [] = []
passes k t ((now, a) ∷ rest) =
    let later = passes k (admit t now a).1 rest in
    if (admit t now a).0 && bytes_eq a.key k then now ∷ later else later

abbrev pub AfterLast : ℕ → Option ℕ → ℕ → Type 0
AfterLast interval none time = Unit
AfterLast interval (some last) time = last + interval ≤ time

-- Each time is at least `interval` after the one before, the first after `last`.
abbrev pub SpacedAfter : ℕ → Option ℕ → List ℕ → Type 0
SpacedAfter interval last [] = Unit
SpacedAfter interval last (time ∷ rest) =
    AfterLast interval last time × SpacedAfter interval (some time) rest

-- An alert is held back exactly when one with its key went through less than the interval ago, and
-- then nothing changes; one that goes through sets the time of its key and of no other.
pub admit_lem :
    (t : Throttled) (now : ℕ) (a : Alert)
    → (((admit t now a).0 ≡ false)
        × ((admit t now a).1 ≡ t)
        × ((last : ℕ) × (t.sent a.key ≡ some last) × (now < last + t.interval)))
      ⊎ (((admit t now a).0 ≡ true)
          × ((admit t now a).1
              ≡ record t { sent = λ k. if bytes_eq a.key k then some now else t.sent k })
          × AfterLast t.interval (t.sent a.key) now)
unfolding admit
admit_lem t now a = elim (Option-cases (t.sent a.key)) [
  | inl fresh ↦ inr (ground arith, ground arith, ground arith)
  | inr (last, e) ↦ elim (Bool-cases (ltb now (last + t.interval))) [
    | inl recent ↦ inl (ground arith, ground arith, (last, e, ground arith))
    | inr past ↦ inr (ground arith, ground arith, ground arith)
  ]
]

-- Over any history, and whatever other alerts come between, two alerts with one key that go through
-- are at least the interval apart, counted from the last one that the throttle remembers.
pub passes-SpacedAfter :
    (k : Bytes) (history : List (ℕ × Alert)) (t : Throttled)
    → SpacedAfter t.interval (t.sent k) (passes k t history)
unfolding passes
passes-SpacedAfter k [] t = tt
passes-SpacedAfter k ((now, a) ∷ rest) t =
    let t' = (admit t now a).1 in
    let ih = passes-SpacedAfter k rest t' in
    elim (admit_lem t now a) [
      | inl (held, same, _) ↦
          rw held (subst (λ u. SpacedAfter u.interval (u.sent k) (passes k t' rest)) same ih)
      | inr (through, set, due) ↦
          let moved = subst (λ u. SpacedAfter u.interval (u.sent k) (passes k t' rest)) set ih in
          elim (Bool-cases (bytes_eq a.key k)) [
            | inr other ↦ rw (through, other) (rw other at moved)
            | inl hit ↦
                rw (through, hit)
                  (
                    subst (λ key. AfterLast t.interval (t.sent key) now) (bytes_eq-eq a.key k hit)
                        due,
                    rw hit at moved,
                  )
          ]
    ]
