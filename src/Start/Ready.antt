-- ===== src/Start/Ready.antt =====
-- cmd/txmill/main.go: with which configuration and surroundings the server runs.
use txmill.Base.{
  ℕ, ◌*◌, ◌<◌, ◌≤◌, ◌≡◌, ◌⊎◌, refl, ◌∙◌, ℤ, pos, negsuc, true, false, [], ◌∷◌, none, Bytes, ok,
  arith, int64, is_empty, bytes_eq, inl, inr, Bool-cases, Option-cases, Result-cases,
}
use txmill.Config.{Config}
use txmill.Keystore.Keys.{new_keystore}
use txmill.Start.{
  Surroundings, Running, running, panicked, dial, milliseconds, start, run_workers, build_notifier,
  is_chain, new_pool,
}

-- The most milliseconds that a duration holds.
abbrev max_ms : ℕ
max_ms = 9223372036854

milliseconds_small : (ms : ℕ) → ms ≤ max_ms → milliseconds ms ≡ pos (ms * 1000000)
unfolding milliseconds
milliseconds_small ms h = ground arith

bytes_eq-empty : (s : Bytes) → bytes_eq s [] ≡ is_empty s
unfolding bytes_eq
bytes_eq-empty [] = refl
bytes_eq-empty (c ∷ s) = refl

pub is_chain-eq : (got : ℤ) (n : ℕ) → is_chain got n ≡ true → got ≡ pos n
is_chain-eq (pos m) n h = ground arith
is_chain-eq (negsuc m) n h = absurd (ground arith)

-- The settings that `main` needs but the intervals, and what the surroundings answer.
pub record IsConnected (x : Surroundings) (cfg : Config) : Type 0 where
  pub db_url : is_empty cfg.db_url ≡ false
  pub rpc_url : is_empty cfg.rpc_url ≡ false
  pub password : is_empty cfg.keystore_password ≡ false
  pub pool : new_pool x ≡ none
  pub directory : x.mkdir ≡ none
  pub connects : x.dial_context ≡ none
  pub same_chain : x.rpc_chain_id ≡ ok (pos cfg.chain_id)

abbrev pub IsReady : Surroundings → Config → Type 0
IsReady x cfg = IsConnected x cfg × (0 < cfg.watcher_interval_ms) × (0 < cfg.gas_interval_ms)

-- The server runs, for the node's chain and with the intervals of the configuration.
abbrev pub Runs : Surroundings → Config → Type 0
Runs x cfg =
    (r : Running) × (start x cfg ≡ running r)
    × (r.chain_id ≡ pos cfg.chain_id)
    × (r.password ≡ cfg.keystore_password)
    × (r.watcher_interval ≡ pos (cfg.watcher_interval_ms * 1000000))
    × (r.gas_interval ≡ pos (cfg.gas_interval_ms * 1000000))

module _ (x : Surroundings) (cfg : Config) (watcher_small : cfg.watcher_interval_ms ≤ max_ms)
    (gas_small : cfg.gas_interval_ms ≤ max_ms) where
  abbrev server : Running
  server = record {
    api_listen = cfg.api_listen;
    password = cfg.keystore_password;
    chain_id = pos cfg.chain_id;
    watcher_interval = milliseconds cfg.watcher_interval_ms;
    batch_size = int64 cfg.watcher_batch_size;
    gas_interval = milliseconds cfg.gas_interval_ms;
    notifier = build_notifier x cfg;
  }

  reaches_workers : IsConnected x cfg → start x cfg ≡ run_workers server
  unfolding start dial new_keystore
  reaches_workers ready =
      let full = bytes_eq-empty cfg.keystore_password in
      ground (
        arith, ready.db_url, ready.rpc_url, ready.password, ready.pool, ready.directory,
        ready.connects, ready.same_chain, full,
      )

  runs_server :
      IsConnected x cfg
      → 0 < cfg.watcher_interval_ms
      → 0 < cfg.gas_interval_ms
      → start x cfg ≡ running server
  runs_server ready first second =
      let watcher = milliseconds_small cfg.watcher_interval_ms watcher_small in
      let gas = milliseconds_small cfg.gas_interval_ms gas_small in
      reaches_workers ready ∙ ground (arith, watcher, gas)

  panics :
      IsConnected x cfg
      → (cfg.watcher_interval_ms ≡ 0) ⊎ (cfg.gas_interval_ms ≡ 0)
      → start x cfg ≡ panicked
  panics ready zero =
      let watcher = milliseconds_small cfg.watcher_interval_ms watcher_small in
      let gas = milliseconds_small cfg.gas_interval_ms gas_small in
      reaches_workers ready ∙ ground (arith, watcher, gas)

  runs : IsReady x cfg → Runs x cfg
  runs (ready, first, second) = (
    server,
    runs_server ready first second,
    refl,
    refl,
    milliseconds_small cfg.watcher_interval_ms watcher_small,
    milliseconds_small cfg.gas_interval_ms gas_small,
  )

  connected_ready :
      (r : Running)
      → start x cfg ≡ running r
      → is_empty cfg.db_url ≡ false
      → is_empty cfg.rpc_url ≡ false
      → is_empty cfg.keystore_password ≡ false
      → new_pool x ≡ none
      → x.mkdir ≡ none
      → IsReady x cfg
  unfolding start dial new_keystore
  connected_ready r h db rpc password pool directory =
      let watcher = milliseconds_small cfg.watcher_interval_ms watcher_small in
      let gas = milliseconds_small cfg.gas_interval_ms gas_small in
      let full = bytes_eq-empty cfg.keystore_password in
      elim (Option-cases x.dial_context) [
        | inr (e, bad) ↦ absurd (ground (arith, full))
        | inl connects ↦ elim (Result-cases x.rpc_chain_id) [
          | inl (e, bad) ↦ absurd (ground (arith, full))
          | inr (got, answers) ↦ elim (Bool-cases (is_chain got cfg.chain_id)) [
            | inr other ↦ absurd (ground (arith, full))
            | inl same ↦
                let is = is_chain-eq got cfg.chain_id same in
                let ticks : start x cfg ≡ run_workers server = ground (arith, full, is) in
                (
                  record {
                    db_url = db;
                    rpc_url = rpc;
                    password = password;
                    pool = pool;
                    directory = directory;
                    connects = connects;
                    same_chain = ground (arith, is);
                  },
                  ground (arith, ticks, h, watcher),
                  ground (arith, ticks, h, watcher, gas),
                )
          ]
        ]
      ]

  ready : (r : Running) → start x cfg ≡ running r → IsReady x cfg
  unfolding start new_keystore
  ready r h =
      let full = bytes_eq-empty cfg.keystore_password in
      elim (Bool-cases (is_empty cfg.db_url)) [
        | inl empty ↦ absurd (ground arith)
        | inr db ↦ elim (Bool-cases (is_empty cfg.rpc_url)) [
          | inl empty ↦ absurd (ground arith)
          | inr rpc ↦ elim (Option-cases (new_pool x)) [
            | inr (e, bad) ↦ absurd (ground arith)
            | inl pool ↦ elim (Bool-cases (is_empty cfg.keystore_password)) [
              | inl empty ↦ absurd (ground (arith, full))
              | inr password ↦ elim (Option-cases x.mkdir) [
                | inr (e, bad) ↦ absurd (ground (arith, full))
                | inl directory ↦ connected_ready r h db rpc password pool directory
              ]
            ]
          ]
        ]
      ]

  -- If the database's URL, the node's URL and the keystore's password are set, the pool and the
  -- keystore's directory can be made, and the node can be reached and answers the configured chain
  -- id, then the process serves that chain, with the intervals and the password of the configuration,
  -- where neither interval is zero, and panics where one is zero, which the configuration accepts;
  -- and it never serves where one of all these conditions fails. It is assumed that the intervals fit
  -- into a duration.
  pub start-IsReady :
      (IsReady x cfg → Runs x cfg)
      × (IsConnected x cfg
          → (cfg.watcher_interval_ms ≡ 0) ⊎ (cfg.gas_interval_ms ≡ 0)
          → start x cfg ≡ panicked)
      × ((r : Running) → start x cfg ≡ running r → IsReady x cfg)
  start-IsReady = (runs, panics, ready)
