-- ===== src/Relay/Integrity.antt =====
-- internal/relay: the reference from `tx_attempts` to `relay_requests` over histories of `Submit` and the
-- watcher.
use txmill.Base.{
  ℕ, ◌≡◌, refl, ap, subst, ◌∙◌, inl, inr, true, List, [], ◌∷◌, arith, Option-cases, Bytes, ◌==◌,
}
use txmill.Store.{Db, Postgres, Statement}
use txmill.Relay.Service.{World}
use txmill.Relay.Watcher.{Watcher, PendingAttempt, Receipt, process, process_all, open_batch, tick}
use txmill.Relay.Receipts.{both_set, process_atomic}
use txmill.Relay.Lifecycle.{Step, submits, ticks_once, step, history}
use txmill.Relay.References.{
  References, Grows, Keeps, has_request, has_request-update_where, All-references, References-grown,
  same-Keeps, Keeps-trans,
}
use txmill.Relay.Goroutines.Filed.{submit-Keeps}

both_set-Keeps :
    (w : Watcher) (p : PendingAttempt) (r : Receipt) (logs : Bytes) (d : Db)
    → Keeps d (both_set w p r logs d)
both_set-Keeps w p r logs d =
    let d' = both_set w p r logs d in
    let grows : Grows d d' =
      λ q h. has_request-update_where q (λ x. x.id == p.request_id) _ d.requests (λ x. refl) ∙ h in
    let marked = record d { attempts = d'.attempts } in
    (
      λ h.
          References-grown marked d' refl grows
            (All-references (λ a. a.id == p.attempt_id) _ d.requests d.attempts (λ a. refl) h),
      grows,
    )

process-Keeps : (w : Watcher) (p : PendingAttempt) (d : Db) → Keeps d (process w p d).1
process-Keeps w p d = elim (process_atomic w p d) [
  | inl same ↦
      same-Keeps d (process w p d).1 (ap (λ x. x.attempts) same) (ap (λ x. x.requests) same)
  | inr (r, logs, _, _, _, attempts, requests) ↦
      Keeps-trans d (both_set w p r logs d) (process w p d).1 (both_set-Keeps w p r logs d)
        (same-Keeps (both_set w p r logs d) (process w p d).1 attempts requests)
]

process_all-Keeps :
    (at : ℕ → Watcher) (ps : List PendingAttempt) (d : Db) → Keeps d (process_all at ps d).1
unfolding process_all
process_all-Keeps at [] d = same-Keeps d d refl refl
process_all-Keeps at (p ∷ rest) d =
    let d' = (process (at p.attempt_id) p d).1 in
    Keeps-trans d d' (process_all at rest d').1 (process-Keeps (at p.attempt_id) p d)
      (process_all-Keeps at rest d')

tick-Keeps : (pg : Postgres) (n : ℕ) (at : ℕ → Watcher) (d : Db) → Keeps d (tick pg n at d).1
unfolding tick
tick-Keeps pg n at d = elim (Option-cases (pg.failure Statement.select_attempts)) [
  | inr (e, fails) ↦ same-Keeps d (tick pg n at d).1 (ground arith) (ground arith)
  | inl works ↦
      let after : (process_all at (open_batch n d) d).1 ≡ (tick pg n at d).1 = ground arith in
      subst (Keeps d) after (process_all-Keeps at (open_batch n d) d)
]

step-Keeps : (x : Step) (w : World) → Keeps w.db (step x w).db
step-Keeps (submits s i) w = submit-Keeps s i w
step-Keeps (ticks_once pg n at) w = tick-Keeps pg n at w.db

history-Keeps : (xs : List Step) (w : World) → Keeps w.db (history xs w).db
history-Keeps [] w = same-Keeps w.db w.db refl refl
history-Keeps (x ∷ xs) w =
    Keeps-trans w.db (step x w).db (history xs (step x w)).db (step-Keeps x w)
      (history-Keeps xs (step x w))

-- Over any history of calls of `Submit` and ticks of the watcher that come one after the other,
-- whatever fails in them, a database whose every attempt is for a stored request stays one, and no
-- request goes.
pub history-References :
    (xs : List Step) (w : World)
    → References w.db
    → References (history xs w).db
      × ((id : ℕ)
          → has_request id w.db.requests ≡ true
          → has_request id (history xs w).db.requests ≡ true)
history-References xs w h = let (kept, grows) = history-Keeps xs w in (kept h, grows)
