-- ===== src/Config/Numbers.antt =====
-- internal/config/config.go: the range of the numbers, and which texts they are read from.
use txmill.Base.{
  ℕ, zero, suc, ◌+◌, ◌*◌, ◌/◌, ◌%◌, ◌^◌, ◌<◌, ◌≡◌, refl, false, [], ◌∷◌, some, Bytes, bytes, arith,
  decimal, ltb, if◌then◌else◌, Option-cases, Bool-cases, inl, inr, is_empty, digits_from,
  digits_from-cons,
}
use txmill.Config.{in_range, Env, digits_value, parse_uint, getenv_uint64, load}

-- A uint64.
abbrev pub IsUint64 : ℕ → Type 0
IsUint64 n = n < 2 ^ 64

parse_uint-IsUint64 : (s : Bytes) (n : ℕ) → parse_uint s ≡ some n → IsUint64 n
unfolding parse_uint
parse_uint-IsUint64 [] n h = absurd (ground arith)
parse_uint-IsUint64 (c ∷ s) n h = elim (Option-cases (digits_value 0 (c ∷ s))) [
  | inl bad ↦ absurd (ground arith)
  | inr (m, read) ↦ ground arith
]

getenv_uint64-IsUint64 :
    (env : Env) (key : Bytes) (default : ℕ)
    → IsUint64 default
    → IsUint64 (getenv_uint64 env key default)
unfolding getenv_uint64
getenv_uint64-IsUint64 env key default h = elim (Option-cases (parse_uint (env key))) [
  | inl bad ↦ ground (arith, bad)
  | inr (n, read) ↦ ground (arith, read, parse_uint-IsUint64 (env key) n read)
]

-- Whatever the environment holds, each number of the configuration is a uint64.
pub load-IsUint64 :
    (env : Env)
    → IsUint64 (load env).chain_id
      × IsUint64 (load env).watcher_interval_ms
      × IsUint64 (load env).watcher_batch_size
      × IsUint64 (load env).gas_interval_ms
      × IsUint64 (load env).alert_throttle_ms
unfolding load
load-IsUint64 env = (
  getenv_uint64-IsUint64 env (bytes "TXMILL_CHAIN_ID") 146 (omega arith),
  getenv_uint64-IsUint64 env (bytes "TXMILL_WATCHER_INTERVAL_MS") 1000 (omega arith),
  getenv_uint64-IsUint64 env (bytes "TXMILL_WATCHER_BATCH_SIZE") 50 (omega arith),
  getenv_uint64-IsUint64 env (bytes "TXMILL_GAS_INTERVAL_MS") 30000 (omega arith),
  getenv_uint64-IsUint64 env (bytes "TXMILL_ALERT_THROTTLE_MS") (30 * 60 * 1000) (omega arith),
)

digits_value-digits_from :
    (fuel n : ℕ) (out : Bytes)
    → n < fuel
    → digits_value 0 (digits_from fuel n out) ≡ digits_value n out
unfolding digits_value
digits_value-digits_from zero n out h = absurd (omega arith)
digits_value-digits_from (suc fuel) n out h = elim (Bool-cases (ltb n 10)) [
  | inl small ↦ ground arith
  | inr large ↦
      let rest = digits_value-digits_from fuel (n / 10) ((b'0' + n % 10) ∷ out) (ground arith) in
      ground (arith, rest)
]

parse_uint-digits : (s : Bytes) → is_empty s ≡ false → parse_uint s ≡ in_range (digits_value 0 s)
unfolding parse_uint
parse_uint-digits [] h = absurd (ground arith)
parse_uint-digits (c ∷ s) h = refl

-- A number whose decimal text is in the environment is read as it is if it is a uint64, and is
-- replaced by the default if it is larger: it never wraps.
pub getenv_uint64-decimal :
    (env : Env) (key : Bytes) (default n : ℕ)
    → env key ≡ decimal n
    → getenv_uint64 env key default ≡ (if ltb n (2 ^ 64) then n else default)
unfolding getenv_uint64 decimal digits_value
getenv_uint64-decimal env key default n h =
    let text = digits_from (suc n) n [] in
    let full = digits_from-cons (suc n) n [] (omega arith) in
    let value : digits_value 0 text ≡ some n =
      digits_value-digits_from (suc n) n [] (omega arith) in
    ground (arith, h, parse_uint-digits text full, value)
