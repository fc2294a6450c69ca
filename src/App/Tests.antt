-- ===== src/App/Tests.antt =====
-- The theorems on internal/app at one registration.
use mathlib.Core.List.{Perm}
use txmill.Base.{
  decimal, List, ℕ, pos, ◌≤◌, ◌≡◌, ◌≢◌, ◌↔◌, refl, false, [], ◌∷◌, ◌++◌, Option, none, some, bytes,
  ok, err, Error, new, wrap, length, trim_space,
}
use txmill.Store.{App as AppRow, Statement, nullif_empty}
use txmill.App.{CreateInput, CreateResult, Service, AppWorld}
use txmill.App.Policy.{
  set_string, parse_uint_or_zero, validate_gas_policy, IsPolicy, validate_gas_policy-decimal,
}
use txmill.App.Create.{generate_signers, add_signers, insert, find_token, create}
use txmill.App.Stages.{inserted}
use txmill.App.Created.{create_lem}
use txmill.App.Accounts.{list_signers, create-list_signers}

abbrev pub service_with : (Statement → Option Error) → Service
service_with failure = record {
  pg = record {
    now = 50;
    new_id = λ s. 9;
    failure = failure;
    unique_violation = Error.foreign 23505;
  };
  generate = λ i. ok i;
  rand = λ i. ok (i ∷ []);
  base64 = λ raw. raw;
  sha256 = λ token. token;
  numeric = λ text. ok (pos 0);
}

abbrev pub service : Service
service = service_with (λ s. none)

-- The copy of the signers fails.
abbrev is_copy : Statement → Option Error
is_copy Statement.copy_signers = some (new "copy")
is_copy _ = none

abbrev failing : Service
failing = service_with is_copy

abbrev pub input : CreateInput
input = record {
  name = bytes " shop ";
  pool_size = pos 2;
  default_callback_url = [];
  signer_min_balance = [];
  signer_refill_amount = [];
  treasury_min_balance = [];
}

abbrev pub world : AppWorld
world = record {
  db = record {
    apps = [];
    signers = [];
    requests = [];
    attempts = [];
    deliveries = [];
    gas_attempts = [];
  };
  keys = [];
}

abbrev result : CreateResult
result = record {
  app_id = 9;
  bearer_token = bytes "tk_" ++ 0 ∷ [];
  default_callback_secret = [];
  treasury_address = 0;
  signer_addresses = 1 ∷ 2 ∷ [];
}

creates : (create service input world).0 ≡ ok result
unfolding create trim_space validate_gas_policy parse_uint_or_zero set_string generate_signers
    insert add_signers
creates = refl

fails_to_copy : (create failing input world).0 ≡ err (wrap "insert" (new "copy"))
unfolding create trim_space validate_gas_policy parse_uint_or_zero set_string generate_signers
    insert add_signers
fails_to_copy = refl

create_lem_example :
    (n : ℕ) × (row : AppRow) × (pos 2 ≡ pos n)
    × (1 ≤ n)
    × (n ≤ 1024)
    × (trim_space input.name ≢ [])
    × (validate_gas_policy [] [] ≡ none)
    × (length result.signer_addresses ≡ n)
    × (row.id ≡ result.app_id)
    × (row.name ≡ trim_space input.name)
    × (row.treasury_address ≡ result.treasury_address)
    × (row.bearer_token_hash ≡ result.bearer_token)
    × (row.default_callback_secret ≡ nullif_empty result.default_callback_secret)
    × (row.pool_size ≡ n)
    × (row.disabled ≡ false)
    × (find_token result.bearer_token world.db.apps ≡ none)
    × ((create service input world).1.db ≡ inserted service row result.signer_addresses world.db)
create_lem_example = create_lem service input world result creates

validate_gas_policy-decimal_example :
    (validate_gas_policy (decimal 5) (decimal 7) ≡ none) ↔ IsPolicy 5 7
validate_gas_policy-decimal_example = validate_gas_policy-decimal 5 7

unread : set_string (bytes "1e3") ≡ none
unfolding set_string
unread = refl

create-list_signers_example :
    (listed : List ℕ) × (list_signers service 9 (create service input world).1.db ≡ ok listed)
    × Perm listed (1 ∷ 2 ∷ [])
create-list_signers_example = create-list_signers service input world result creates tt refl
