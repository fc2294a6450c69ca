-- ===== src/Signer/Nonces.antt =====
-- The nonce counter of internal/signer/signer.go: what it hands out, and what a rewind undoes.
use txmill.Base.{ℕ, zero, suc, ◌+◌, ◌%◌, ◌^◌, ◌<◌, ◌≡◌, List, [], ◌∷◌, arith}
use txmill.Signer.{Signer, use_nonce, rewind_nonce, reset_nonce}

-- A counter in the uint64 range hands out its value and moves on by one, wrapping at 2^64; a
-- rewind right after it restores the signer; and both stay in the range.
pub use-rewind :
    (s : Signer)
    → s.nonce < 2 ^ 64
    → ((use_nonce s).0 ≡ s.nonce)
      × ((use_nonce s).1.nonce ≡ (s.nonce + 1) % 2 ^ 64)
      × (rewind_nonce (use_nonce s).1 ≡ s)
      × ((use_nonce s).1.nonce < 2 ^ 64)
unfolding use_nonce rewind_nonce
use-rewind s h = ground arith

-- The nonces that `k` uses in a row hand out.
pub use_many : ℕ → Signer → List ℕ
use_many zero s = []
use_many (suc k) s = let (n, s') = use_nonce s in n ∷ use_many k s'

abbrev pub counted_from : ℕ → ℕ → List ℕ
counted_from zero n = []
counted_from (suc k) n = n ∷ counted_from k (n + 1)

-- From a reset to `n`, as many uses as stay below 2^64 hand out the consecutive nonces
-- n, n + 1, …: none is skipped and none is given twice.
pub use_many-reset :
    (k n : ℕ) (s : Signer) → n + k < 2 ^ 64 → use_many k (reset_nonce s n) ≡ counted_from k n
unfolding use_many reset_nonce use_nonce
use_many-reset zero n s h = ground arith
use_many-reset (suc k) n s h = ground (arith, use_many-reset k (n + 1) s)
