-- ===== src/Signer/Tests.antt =====
-- The theorems on internal/signer at small concrete pools.
use mathlib.Core.List.{Mem}
use txmill.Base.{ℕ, ◌≡◌, refl, List, [], ◌∷◌, none, some, ok}
use txmill.Signer.{Signer}
use txmill.Signer.Pool.{Pool, Backends, hydrate, fetch, install, load, checkout}
use txmill.Signer.Sharing.{Shared, Reach, here, next, lent, checkout_exclusive}

abbrev signer_at : ℕ → Signer
signer_at address = record { app_id = 1; address = address; key = 500; nonce = 7 }

abbrev both : List Signer
both = signer_at 100 ∷ signer_at 101 ∷ []

abbrev backends : Backends
backends = record {
  list_signers = λ app. ok (100 ∷ 101 ∷ []);
  load_key = λ address. ok 500;
  pending_nonce_at = λ address. ok 7;
}

abbrev pool_with : List ℕ → Pool
pool_with idle = (1, record { signers = both; idle = idle }) ∷ []

abbrev one_lent : Shared
one_lent = record { pool = pool_with (1 ∷ []); out = 0 ∷ [] }

lend_first : Reach 1 (record { pool = (load backends [] 1).1; out = [] }) one_lent
unfolding load fetch hydrate install checkout
lend_first = next here (lent none (record { app_id = 1; index = 0 }) refl refl)

loads : (load backends [] 1).0 ≡ ok tt
unfolding load fetch hydrate install
loads = refl

lends_second :
    checkout one_lent.pool 1 none ≡ some (ok (record { app_id = 1; index = 1 }), pool_with [])
unfolding checkout
lends_second = refl

checkout_exclusive_example : ¬ Mem 1 one_lent.out
checkout_exclusive_example =
    checkout_exclusive 1 backends [] one_lent none (record { app_id = 1; index = 1 }) (pool_with [])
      refl loads lend_first lends_second
