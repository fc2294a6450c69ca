-- ===== src/Config/Tests.antt =====
-- The numbers of internal/config at one environment.
use txmill.Base.{◌≡◌, ◌^◌, refl, [], bytes, bytes_eq, decimal, if◌then◌else◌, ltb}
use txmill.Config.{Env, load, getenv_uint64}
use txmill.Config.Numbers.{IsUint64, load-IsUint64, getenv_uint64-decimal}

-- A chain id that is no uint64.
abbrev env : Env
env key = if bytes_eq key (bytes "TXMILL_CHAIN_ID") then decimal (2 ^ 64) else []

load-IsUint64_example :
    IsUint64 (load env).chain_id
    × IsUint64 (load env).watcher_interval_ms
    × IsUint64 (load env).watcher_batch_size
    × IsUint64 (load env).gas_interval_ms
    × IsUint64 (load env).alert_throttle_ms
load-IsUint64_example = load-IsUint64 env

too_large : env (bytes "TXMILL_CHAIN_ID") ≡ decimal (2 ^ 64)
unfolding bytes_eq
too_large = refl

getenv_uint64-decimal_example :
    getenv_uint64 env (bytes "TXMILL_CHAIN_ID") 146
    ≡ (if ltb (2 ^ 64) (2 ^ 64) then 2 ^ 64 else 146)
getenv_uint64-decimal_example =
    getenv_uint64-decimal env (bytes "TXMILL_CHAIN_ID") 146 (2 ^ 64) too_large
