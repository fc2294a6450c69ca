-- ===== src/Signer.antt =====
-- internal/signer/signer.go: a signing key with its nonce counter, an atomic uint64 that wraps.
pub mod Nonces
pub mod Pool
pub mod Lending
pub mod Sharing
pub mod Cells
mod Tests
use txmill.Base.{ℕ, ◌+◌, ◌-◌, ◌%◌, ◌^◌}

-- `key` stands for the `*ecdsa.PrivateKey`, `address` for the 20-byte address as a number.
pub record Signer : Type 0 where
  pub app_id : ℕ
  pub address : ℕ
  pub key : ℕ
  pub nonce : ℕ

-- `Signer.Nonce`
abbrev pub nonce_of : Signer → ℕ
nonce_of s = s.nonce

-- `s.nonce.Add(1) - 1`: the reserved nonce, and the signer with the counter moved on.
unfoldable pub use_nonce : Signer → ℕ × Signer
use_nonce s =
    let next = (s.nonce + 1) % 2 ^ 64 in ((next + 2 ^ 64 - 1) % 2 ^ 64, record s { nonce = next })

-- `s.nonce.Add(^uint64(0))`
unfoldable pub rewind_nonce : Signer → Signer
rewind_nonce s = record s { nonce = (s.nonce + (2 ^ 64 - 1)) % 2 ^ 64 }

unfoldable pub reset_nonce : Signer → ℕ → Signer
reset_nonce s n = record s { nonce = n }
