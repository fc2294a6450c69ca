-- ===== src/Provision/Tests.antt =====
-- A new app of internal/app whose keys lie in a keystore and are loaded into the pool.
use mathlib.Core.List.{Perm}
use txmill.Base.{ℕ, ◌+◌, ◌≡◌, refl, [], ◌∷◌, ◌++◌, List, ok, none, bytes, arith, insert, map}
use txmill.Keystore.{Answers}
use txmill.Keystore.Keys.{generate, write, store}
use txmill.Keystore.Kept.{Fills}
use txmill.Keystore.Tests.{libraries, laws, answers_for, password, dir}
use txmill.App.{CreateResult}
use txmill.App.Policy.{set_string, parse_uint_or_zero, validate_gas_policy}
use txmill.App.Create.{create, generate_signers, add_signers, insert as insert_app}
use txmill.App.Tests.{service, input, world}
use txmill.Base.{trim_space, bytes_eq}
use txmill.Signer.{Signer}
use txmill.Signer.Pool.{fresh_pool, load}
use txmill.Provision.{with_keys, dir_after, backends, Differ, HoldsKeys, create-load}

abbrev answers : ℕ → Answers
answers k = answers_for (k + 3) none

answers-Fills : (k : ℕ) → Fills (answers k)
answers-Fills k n b h = ground arith

answers-Differ : Differ libraries answers
answers-Differ j k p q apart first second same = apart (ground (arith, first, second, same))

abbrev result : CreateResult
result = record {
  app_id = 9;
  bearer_token = bytes "tk_" ++ 0 ∷ [];
  default_callback_secret = [];
  treasury_address = 3;
  signer_addresses = 4 ∷ 5 ∷ [];
}

creates : (create (with_keys libraries password answers dir service) input world).0 ≡ ok result
unfolding create trim_space validate_gas_policy parse_uint_or_zero set_string generate_signers
    insert_app add_signers dir_after generate write store bytes_eq
creates = refl

create-load_example :
    let made = create (with_keys libraries password answers dir service) input world in
    let after = dir_after libraries password answers dir 3 in
    let b = backends service made.1.db libraries (answers 0) password after (λ a. 7) in
    (signers : List Signer) × (load b [] 9 ≡ (ok tt, insert 9 (fresh_pool signers) []))
    × Perm (map (λ v. v.address) signers) (4 ∷ 5 ∷ [])
    × HoldsKeys libraries signers
create-load_example =
    create-load libraries password answers (answers 0) dir service input world result [] (λ a. 7)
      laws answers-Fills answers-Differ refl creates tt refl refl
