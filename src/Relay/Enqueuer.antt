-- ===== src/Relay/Enqueuer.antt =====
-- The interface `WebhookEnqueuer` of internal/relay/service.go, between the relay and the webhooks:
-- an enqueuer may fail, and writes to no table but `webhook_deliveries`.
use txmill.Base.{ℕ, ◌≡◌}
use txmill.Store.{Db, Exec}

pub record Enqueuer : Type 0 where
  pub enqueue : ℕ → Exec Db Unit
  pub keeps_requests : (id : ℕ) (d : Db) → (enqueue id d).1.requests ≡ d.requests
  pub keeps_attempts : (id : ℕ) (d : Db) → (enqueue id d).1.attempts ≡ d.attempts
