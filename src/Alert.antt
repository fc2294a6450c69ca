-- ===== src/Alert.antt =====
-- internal/alert: alerts, the throttle (throttle.go) and the fan-out (multi.go).
pub mod Spacing
pub mod Transports
mod Tests
use txmill.Base.{
  bytes_eq, ℕ, ◌+◌, ◌≡◌, refl, ap, Bool, true, false, ◌&&◌, List, [], ◌∷◌, Option, none, some,
  Bytes, Error, arith, ltb, ◌==◌, if◌then◌else◌,
}

pub data Level : Type 0 where
  info warn error : Level

-- `Alert`; the tags are a list of pairs.
pub record Alert : Type 0 where
  pub key : Bytes
  pub level : Level
  pub title : Bytes
  pub message : Bytes
  pub tags : List (Bytes × Bytes)

-- The interface `Notifier`, as it answers during one call.
abbrev pub Notifier : Type 0
Notifier = Alert → Option Error

-- `Discard`
pub discard : Notifier
discard a = none

-- `Throttled`; `sent` is the map from keys to times, in milliseconds.
pub record Throttled : Type 0 where
  pub interval : ℕ
  pub sent : Bytes → Option ℕ

pub new_throttled : ℕ → Throttled
new_throttled interval = record { interval = interval; sent = λ key. none }

abbrev is_recent : ℕ → ℕ → Option ℕ → Bool
is_recent now interval none = false
is_recent now interval (some last) = ltb now (last + interval)

-- The part of `Throttled.Notify` under the lock: whether the alert goes on to the inner notifier.
-- `now.Sub(last) < interval` is written without the subtraction.
unfoldable pub admit : Throttled → ℕ → Alert → Bool × Throttled
admit t now a =
    if is_recent now t.interval (t.sent a.key)
    then (false, t)
    else (true, record t { sent = λ key. if bytes_eq a.key key then some now else t.sent key })

-- `Throttled.Notify`
unfoldable pub notify : Notifier → Throttled → ℕ → Alert → Option Error × Throttled
unfolding admit
notify inner t now a = let (goes_on, t') = admit t now a in (if goes_on then inner a else none, t')

-- `Multi.Notify`, with the errors that `errors.Join` joins; none of them stops the loop.
unfoldable pub notify_all : List Notifier → Alert → List Error
notify_all [] a = []
notify_all (n ∷ rest) a = elim (n a) [ none ↦ notify_all rest a | some e ↦ e ∷ notify_all rest a ]
