-- ===== src/Base/Results.antt =====
-- Go's `error` values and the two results `(value, error)` of a fallible call.
use Prim.Native.Nat.{ℕ}
use Prim.Native.String.{String}
use mathlib.Core.Path.{◌≡◌, refl}
use mathlib.Core.Logic.{◌⊎◌, inl, inr}

-- The package-level sentinels that callers compare with by `errors.Is`.
pub data Sentinel : Type 0 where
  chain_id_mismatch past_deadline : Sentinel
  app_not_loaded request_not_found app_not_found invalid_token no_rows : Sentinel

-- `sentinel` is one of these, `new` an error made in the program by `errors.New` or `fmt.Errorf`
-- with no cause, `foreign` an error of a library, and `wrap` is `fmt.Errorf("label: %w", cause)`.
pub data Error : Type 0 where
  sentinel : Sentinel → Error
  new : String → Error
  foreign : ℕ → Error
  wrap : String → Error → Error

pub data Result {ℓ} (A : Type ℓ) : Type ℓ where
  ok : A → Result A
  err : Error → Result A

pub Result-cases {ℓ} :
    {A : Type ℓ} (r : Result A) → ((e : Error) × (r ≡ err e)) ⊎ ((a : A) × (r ≡ ok a))
Result-cases (ok a) = inr (a, refl)
Result-cases (err e) = inl (e, refl)
