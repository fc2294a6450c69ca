-- ===== src/App/Created.antt =====
-- internal/app: what a call of `Create` leaves, failed or not.
use txmill.Base.{
  ℕ, ℤ, pos, negsuc, ◌≤◌, ◌≡◌, ◌≢◌, refl, sym, ap, ◌∙◌, List, inl, inr, false, [], ◌∷◌, ◌++◌, none,
  some, ok, err, Error, is_empty, length, arith, trim_space, Result-cases,
}
use txmill.Store.{App as AppRow, nullif_empty}
use txmill.App.{CreateInput, CreateResult, Service, AppWorld}
use txmill.App.Policy.{validate_gas_policy}
use txmill.App.Create.{pool_count, new_app, find_token, insert, create, generate_signers}
use txmill.App.Stages.{inserted, generate_signers_lem, insert_lem, insert_fails, create_cases}

-- A call of `Create` that fails leaves the database as it was, app and signers both.
pub create_atomic :
    (s : Service) (i : CreateInput) (w : AppWorld) {e : Error}
    → (create s i w).0 ≡ err e
    → (create s i w).1.db ≡ w.db
create_atomic s i w h = elim (create_cases s i w) [
  | inl (x, failed, same) ↦ same
  | inr m ↦
      let row =
        new_app s (trim_space i.name) m.count i.default_callback_url m.secret m.treasury
          (s.sha256 m.token) in
      elim (Result-cases (insert s row i m.signers w.db).0) [
        | inl (x, failed) ↦ ground (arith, m.ends, insert_fails s row i m.signers w.db failed)
        | inr (app, done) ↦ absurd (ground (arith, m.ends))
      ]
]

-- The token that is returned is not empty.
pub create-token :
    (s : Service) (i : CreateInput) (w : AppWorld) (res : CreateResult)
    → (create s i w).0 ≡ ok res
    → is_empty res.bearer_token ≡ false
create-token s i w res h = elim (create_cases s i w) [
  | inl (e, failed, same) ↦ absurd (ground arith)
  | inr m ↦
      let row =
        new_app s (trim_space i.name) m.count i.default_callback_url m.secret m.treasury
          (s.sha256 m.token) in
      elim (Result-cases (insert s row i m.signers w.db).0) [
        | inl (x, failed) ↦ absurd (ground (arith, m.ends))
        | inr (app, done) ↦ elim (Result-cases (s.rand 0)) [
          | inl (x, failed) ↦ absurd (ground (arith, m.tokened))
          | inr (raw, read) ↦ ground (arith, m.ends, m.tokened)
        ]
      ]
]

-- The returned signers are those of the loop over the keystore.
pub create-generated :
    (s : Service) (i : CreateInput) (w : AppWorld) (res : CreateResult)
    → (create s i w).0 ≡ ok res
    → (n : ℕ) × (keys : List ℕ) × ((generate_signers s 1 n keys).0 ≡ ok res.signer_addresses)
create-generated s i w res h = elim (create_cases s i w) [
  | inl (e, failed, same) ↦ absurd (ground arith)
  | inr m ↦
      let row =
        new_app s (trim_space i.name) m.count i.default_callback_url m.secret m.treasury
          (s.sha256 m.token) in
      elim (Result-cases (insert s row i m.signers w.db).0) [
        | inl (x, failed) ↦ absurd (ground (arith, m.ends))
        | inr (app, done) ↦
            let same : res.signer_addresses ≡ m.signers = ground (arith, m.ends) in
            (m.count, w.keys ++ m.treasury ∷ [], m.made ∙ ap ok (sym same))
      ]
]

pool_count_lem :
    (size : ℤ) (n : ℕ) → pool_count size ≡ some n → (size ≡ pos n) × (1 ≤ n) × (n ≤ 1024)
pool_count_lem (pos k) n h = ground arith
pool_count_lem (negsuc k) n h = absurd (ground arith)

-- What a call of `Create` that succeeds leaves. The input has a name that is not blank, a pool size
-- from 1 to 1024 and a gas policy that the validation accepts; there is one signer for
-- each of the pool size; and the database has one more app, with the trimmed name, the treasury, the
-- hash of the returned token (which no app had) and the returned secret, enabled, and one more row for each signer, in order.
pub create_lem :
    (s : Service) (i : CreateInput) (w : AppWorld) (res : CreateResult)
    → (create s i w).0 ≡ ok res
    → (n : ℕ) × (row : AppRow) × (i.pool_size ≡ pos n)
      × (1 ≤ n)
      × (n ≤ 1024)
      × (trim_space i.name ≢ [])
      × (validate_gas_policy i.signer_min_balance i.signer_refill_amount ≡ none)
      × (length res.signer_addresses ≡ n)
      × (row.id ≡ res.app_id)
      × (row.name ≡ trim_space i.name)
      × (row.treasury_address ≡ res.treasury_address)
      × (row.bearer_token_hash ≡ s.sha256 res.bearer_token)
      × (row.default_callback_secret ≡ nullif_empty res.default_callback_secret)
      × (row.pool_size ≡ n)
      × (row.disabled ≡ false)
      × (find_token (s.sha256 res.bearer_token) w.db.apps ≡ none)
      × ((create s i w).1.db ≡ inserted s row res.signer_addresses w.db)
create_lem s i w res h = elim (create_cases s i w) [
  | inl (e, failed, same) ↦ absurd (ground arith)
  | inr m ↦
      let row =
        new_app s (trim_space i.name) m.count i.default_callback_url m.secret m.treasury
          (s.sha256 m.token) in
      elim (Result-cases (insert s row i m.signers w.db).0) [
        | inl (x, failed) ↦ absurd (ground (arith, m.ends))
        | inr (app, done) ↦
            let (min, refill, low, _, _, own, fresh, after) =
              insert_lem s row i m.signers w.db done in
            let sized : (i.pool_size ≡ pos m.count) × (1 ≤ m.count) × (m.count ≤ 1024) =
              pool_count_lem i.pool_size m.count m.sized in
            let (count, _) =
              generate_signers_lem s 1 m.count (w.keys ++ m.treasury ∷ []) m.signers m.made in
            let named : trim_space i.name ≢ [] = ground (arith, m.named) in
            let res_is : res ≡ record {
              app_id = app;
              bearer_token = m.token;
              default_callback_secret = m.secret;
              treasury_address = m.treasury;
              signer_addresses = m.signers;
            } =
              ground (arith, m.ends) in
            let left : (create s i w).1.db ≡ inserted s (row min refill low) m.signers w.db =
              ground (arith, m.ends, after) in
            (
              m.count,
              row min refill low,
              sized.0,
              sized.1,
              sized.2,
              named,
              m.policy,
              ground (arith, res_is, count),
              ground (arith, res_is, own),
              refl,
              ground (arith, res_is),
              ground (arith, res_is),
              ground (arith, res_is),
              refl,
              refl,
              ground (arith, res_is, fresh),
              ground (arith, res_is, left),
            )
      ]
]
