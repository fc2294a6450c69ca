-- ===== src/App/Stages.antt =====
-- internal/app/app.go, `Create`: how far a call gets, and what its loops and its transaction leave.
use mathlib.Core.List.{append_assoc, append-nil}
use txmill.Base.{
  ℕ, ℤ, zero, suc, ◌≡◌, ◌⊎◌, inl, inr, false, List, [], ◌∷◌, ◌++◌, map, none, some, Bytes, ok, err,
  Error, wrap, new, is_empty, length, arith, trim_space, Bool-cases, Option-cases, Result-cases,
}
use txmill.Store.{App as AppRow, SignerRow, Db, Postgres}
use txmill.App.{CreateInput, Service, AppWorld}
use txmill.App.Policy.{validate_gas_policy}
use txmill.App.Create.{
  pool_count, generate_signers, new_bearer_token, secret_for, new_app, finish, find_token,
  signer_row, add_signers, insert, create, non_empty_or_zero,
}

pub generate_signers_lem :
    (s : Service) (i n : ℕ) (keys addresses : List ℕ)
    → (generate_signers s i n keys).0 ≡ ok addresses
    → (length addresses ≡ n) × ((generate_signers s i n keys).1 ≡ keys ++ addresses)
unfolding generate_signers
generate_signers_lem s i zero keys addresses h =
    let none_made : addresses ≡ [] = ground arith in
    (ground (arith, none_made), ground (arith, none_made, append-nil keys))
generate_signers_lem s i (suc n) keys addresses h = elim (Result-cases (s.generate i)) [
  | inl (e, failed) ↦ absurd (ground arith)
  | inr (a, made) ↦
      let tail = generate_signers s (suc i) n (keys ++ a ∷ []) in
      elim (Result-cases tail.0) [
        | inl (e, failed) ↦ absurd (ground arith)
        | inr (rest, others) ↦
            let (count, held) = generate_signers_lem s (suc i) n (keys ++ a ∷ []) rest others in
            let all : addresses ≡ a ∷ rest = ground arith in
            let joined = append_assoc keys (a ∷ []) rest in
            (ground (arith, all, count), ground (arith, all, held, joined))
      ]
]

add_signers-map :
    (pg : Postgres) (app : ℕ) (addresses : List ℕ) (rows added : List SignerRow)
    → add_signers pg app addresses rows ≡ some added
    → added ≡ rows ++ map (signer_row pg app) addresses
unfolding add_signers
add_signers-map pg app [] rows added h = ground (arith, append-nil rows)
add_signers-map pg app (a ∷ rest) rows added h =
    let row = signer_row pg app a in
    ground (
      arith,
      add_signers-map pg app rest (rows ++ row ∷ []) added,
      append_assoc rows (row ∷ []) (map (signer_row pg app) rest),
    )

-- The database after an insertion.
abbrev pub inserted : Service → AppRow → List ℕ → Db → Db
inserted s row addresses d = record d {
  apps = d.apps ++ row ∷ [];
  signers = d.signers ++ map (signer_row s.pg row.id) addresses;
}

pub insert_lem :
    (s : Service) (row : ℤ → ℤ → ℤ → AppRow) (i : CreateInput) (addresses : List ℕ) (d : Db)
    {app : ℕ}
    → (insert s row i addresses d).0 ≡ ok app
    → (min refill low : ℤ) × (s.numeric (non_empty_or_zero i.signer_min_balance) ≡ ok min)
      × (s.numeric (non_empty_or_zero i.signer_refill_amount) ≡ ok refill)
      × (app ≡ (row min refill low).id)
      × (find_token (row min refill low).bearer_token_hash d.apps ≡ none)
      × ((insert s row i addresses d).1 ≡ inserted s (row min refill low) addresses d)
unfolding insert
insert_lem s row i addresses d h =
    elim (Result-cases (s.numeric (non_empty_or_zero i.signer_min_balance))) [
      | inl (e, bad) ↦ absurd (ground arith)
      | inr (min, read) ↦
          elim (Result-cases (s.numeric (non_empty_or_zero i.signer_refill_amount))) [
            | inl (e, bad) ↦ absurd (ground arith)
            | inr (refill, read') ↦
                elim (Result-cases (s.numeric (non_empty_or_zero i.treasury_min_balance))) [
                  | inl (e, bad) ↦ absurd (ground arith)
                  | inr (low, read'') ↦
                      let new = row min refill low in
                      elim (Option-cases (find_token new.bearer_token_hash d.apps)) [
                        | inr (other, taken) ↦ absurd (ground arith)
                        | inl fresh ↦
                            elim (Option-cases (add_signers s.pg new.id addresses d.signers)) [
                              | inl clash ↦ absurd (ground arith)
                              | inr (rows, added) ↦
                                  let copied =
                                    add_signers-map s.pg new.id addresses d.signers rows added in
                                  (
                                    min,
                                    refill,
                                    low,
                                    read,
                                    read',
                                    ground arith,
                                    fresh,
                                    ground (arith, copied),
                                  )
                            ]
                      ]
                ]
          ]
    ]

pub insert_fails :
    (s : Service) (row : ℤ → ℤ → ℤ → AppRow) (i : CreateInput) (addresses : List ℕ) (d : Db)
    {e : Error}
    → (insert s row i addresses d).0 ≡ err e
    → (insert s row i addresses d).1 ≡ d
unfolding insert
insert_fails s row i addresses d h = ground arith

-- A call that gets as far as the insertion: what it has made by then, and how it ends.
pub record Made (s : Service) (i : CreateInput) (w : AppWorld) : Type 0 where
  pub count : ℕ
  pub treasury : ℕ
  pub signers : List ℕ
  pub token : Bytes
  pub secret : Bytes
  pub named : is_empty (trim_space i.name) ≡ false
  pub sized : pool_count i.pool_size ≡ some count
  pub policy : validate_gas_policy i.signer_min_balance i.signer_refill_amount ≡ none
  pub made : (generate_signers s 1 count (w.keys ++ treasury ∷ [])).0 ≡ ok signers
  pub tokened : new_bearer_token s ≡ ok token
  pub secured : secret_for s i.default_callback_url ≡ ok secret
  pub ends :
      create s i w
      ≡ finish treasury signers token secret
          (record w { keys = (generate_signers s 1 count (w.keys ++ treasury ∷ [])).1 })
          (insert s
            (new_app s
              (trim_space i.name)
              count
              i.default_callback_url
              secret
              treasury
              (s.sha256 token))
            i
            signers
            w.db)

abbrev pub Refused : Service → CreateInput → AppWorld → Type 0
Refused s i w = (e : Error) × ((create s i w).0 ≡ err e) × ((create s i w).1.db ≡ w.db)

keys_cases :
    (s : Service) (i : CreateInput) (w : AppWorld) (n : ℕ)
    → is_empty (trim_space i.name) ≡ false
    → pool_count i.pool_size ≡ some n
    → validate_gas_policy i.signer_min_balance i.signer_refill_amount ≡ none
    → Refused s i w ⊎ Made s i w
unfolding create
keys_cases s i w n named sized policy = elim (Result-cases (s.generate 0)) [
  | inl (e, failed) ↦ inl (wrap "generate treasury" e, ground arith, ground arith)
  | inr (treasury, g) ↦
      let made = generate_signers s 1 n (w.keys ++ treasury ∷ []) in
      elim (Result-cases made.0) [
        | inl (e, failed) ↦ inl (e, ground arith, ground arith)
        | inr (signers, m) ↦ elim (Result-cases (new_bearer_token s)) [
          | inl (e, failed) ↦ inl (e, ground arith, ground arith)
          | inr (token, t) ↦ elim (Result-cases (secret_for s i.default_callback_url)) [
            | inl (e, failed) ↦ inl (e, ground arith, ground arith)
            | inr (secret, c) ↦ inr (record {
              count = n;
              treasury = treasury;
              signers = signers;
              token = token;
              secret = secret;
              named = named;
              sized = sized;
              policy = policy;
              made = m;
              tokened = t;
              secured = c;
              ends = ground arith;
            })
          ]
        ]
      ]
]

pub create_cases : (s : Service) (i : CreateInput) (w : AppWorld) → Refused s i w ⊎ Made s i w
unfolding create
create_cases s i w = elim (Bool-cases (is_empty (trim_space i.name))) [
  | inl empty ↦ inl (new "name is required", ground arith, ground arith)
  | inr named ↦ elim (Option-cases (pool_count i.pool_size)) [
    | inl out ↦ inl (new "pool_size must be between 1 and 1024", ground arith, ground arith)
    | inr (n, sized) ↦
        elim (Option-cases (validate_gas_policy i.signer_min_balance i.signer_refill_amount)) [
          | inr (e, refused) ↦ inl (e, ground arith, ground arith)
          | inl policy ↦ keys_cases s i w n named sized policy
        ]
  ]
]
