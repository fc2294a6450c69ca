-- ===== src/Webhook/Batches.antt =====
-- internal/webhook/webhook.go: the batch that `tick` reads, and the whole of `tick`.
use txmill.Base.{
  ℕ, zero, suc, ◌≤◌, ◌≡◌, ◌≢◌, refl, ap, ◌∙◌, sym, subst, Bool, true, List, [], ◌∷◌, arith, All,
  All-insert_by, All-order_by, All-take, All-mono, select, take, order_by, insert_by, map, ◌==◌,
  inl, inr, Option-cases,
}
use txmill.Store.{Delivery, DeliveryStatus, Db, Postgres, Statement}
use txmill.Webhook.Worker.{Surroundings, is_due, pending_of, due, deliver_all, tick}
use txmill.Webhook.Retries.{IsSound, Snapshot}
use txmill.Webhook.Lifecycle.{Evolves, Evolves-refl, IsBatch, deliver_all-IsSound}

-- The primary key.
abbrev pub DistinctIds : List Delivery → Type 0
DistinctIds [] = Unit
DistinctIds (x ∷ xs) = All (λ y. y.id ≢ x.id) xs × DistinctIds xs

module _ (P : Delivery → Type 0) where
  All-select :
      (q : Delivery → Bool) (xs : List Delivery)
      → All (λ x. q x ≡ true → P x) xs
      → All P (select q xs)
  All-select q [] h = tt
  All-select q (x ∷ xs) h = ground (arith, All-select q xs h.1, h.0)

  All-select_any : (q : Delivery → Bool) (xs : List Delivery) → All P xs → All P (select q xs)
  All-select_any q xs h = All-select q xs (All-mono P (λ x. q x ≡ true → P x) xs (λ x p _. p) h)

DistinctIds-select :
    (q : Delivery → Bool) (xs : List Delivery) → DistinctIds xs → DistinctIds (select q xs)
DistinctIds-select q [] h = tt
DistinctIds-select q (x ∷ xs) h =
    ground (arith, DistinctIds-select q xs h.1, All-select_any (λ y. y.id ≢ x.id) q xs h.0)

DistinctIds-insert_by :
    (k : Delivery → ℕ) (x : Delivery) (ys : List Delivery)
    → All (λ y. y.id ≢ x.id) ys
    → DistinctIds ys
    → DistinctIds (insert_by k x ys)
DistinctIds-insert_by k x [] n h = (tt, tt)
DistinctIds-insert_by k x (y ∷ ys) n h =
    let apart : x.id ≢ y.id = λ e. n.0 (sym e) in
    ground (
      arith,
      DistinctIds-insert_by k x ys n.1 h.1,
      All-insert_by (λ z. z.id ≢ y.id) k x ys apart h.0,
    )

DistinctIds-order_by :
    (k : Delivery → ℕ) (xs : List Delivery) → DistinctIds xs → DistinctIds (order_by k xs)
DistinctIds-order_by k [] h = tt
DistinctIds-order_by k (x ∷ xs) h =
    DistinctIds-insert_by k x (order_by k xs) (All-order_by (λ y. y.id ≢ x.id) k xs h.0)
      (DistinctIds-order_by k xs h.1)

DistinctIds-take : (n : ℕ) (xs : List Delivery) → DistinctIds xs → DistinctIds (take n xs)
DistinctIds-take zero xs h = tt
DistinctIds-take (suc n) [] h = tt
DistinctIds-take (suc n) (x ∷ xs) h =
    (All-take (λ y. y.id ≢ x.id) n xs h.0, DistinctIds-take n xs h.1)

-- With distinct ids, a row with the id of another is that row.
abbrev Same : Delivery → Delivery → Type 0
Same r x = (x.id == r.id) ≡ true → x ≡ r

All-zip :
    (P Q R : Delivery → Type 0) (xs : List Delivery)
    → ((x : Delivery) → P x → Q x → R x)
    → All P xs
    → All Q xs
    → All R xs
All-zip P Q R [] f h k = tt
All-zip P Q R (x ∷ xs) f h k = (f x h.0 k.0, All-zip P Q R xs f h.1 k.1)

apart-Same : (r x : Delivery) → x.id ≢ r.id → Same r x
apart-Same r x ne e = absurd (ground arith)

DistinctIds-Same : (rows : List Delivery) → DistinctIds rows → All (λ r. All (Same r) rows) rows
DistinctIds-Same [] h = tt
DistinctIds-Same (x ∷ xs) h = (
  (λ _. refl, All-mono (λ y. y.id ≢ x.id) (Same x) xs (apart-Same x) h.0),
  All-zip (λ y. y.id ≢ x.id) (λ r. All (Same r) xs) (λ r. All (Same r) (x ∷ xs)) xs
      (λ r ne rest. (apart-Same r x (λ e. ne (sym e)), rest)) h.0 (DistinctIds-Same xs h.1),
)

-- What makes an entry of a batch right: a pending row, as it stands in the table.
abbrev Good : List Delivery → Delivery → Type 0
Good rows r = (r.attempt ≤ 4) × All (Snapshot (pending_of r)) rows

Same-Snapshot :
    (r x : Delivery) → r.status ≡ DeliveryStatus.pending → Same r x → Snapshot (pending_of r) x
Same-Snapshot r x p same hit = let e = same hit in (ap (λ v. v.status) e ∙ p, ap (λ v. v.attempt) e)

is_due-pending : (now : ℕ) (r : Delivery) → is_due now r ≡ true → r.status ≡ DeliveryStatus.pending
is_due-pending now r h = ground arith

due_row-Good :
    (now : ℕ) (rows : List Delivery) (r : Delivery)
    → IsSound r
    → All (Same r) rows
    → is_due now r ≡ true
    → Good rows r
due_row-Good now rows r sound same d =
    let p = is_due-pending now r d in
    (
      sound.open_below p,
      All-mono (Same r) (Snapshot (pending_of r)) rows (λ x s. Same-Snapshot r x p s) same,
    )

map-IsBatch :
    (rows bs : List Delivery)
    → DistinctIds bs
    → All (Good rows) bs
    → IsBatch (map pending_of bs) rows
map-IsBatch rows [] d g = tt
map-IsBatch rows (b ∷ bs) d g = (g.0.0, g.0.1, apart bs d.0, map-IsBatch rows bs d.1 g.1)
  where
    apart :
        (xs : List Delivery)
        → All (λ y. y.id ≢ b.id) xs
        → All (λ e. e.id ≢ b.id) (map pending_of xs)
    apart [] h = tt
    apart (x ∷ xs) h = (h.0, apart xs h.1)

due-IsBatch :
    (now n : ℕ) (rows : List Delivery)
    → DistinctIds rows
    → All IsSound rows
    → IsBatch (due now n rows) rows
unfolding due
due-IsBatch now n rows d s =
    let key = λ (r : Delivery). r.next_attempt_at in
    let good : All (λ r. is_due now r ≡ true → Good rows r) rows =
      All-zip IsSound (λ r. All (Same r) rows) (λ r. is_due now r ≡ true → Good rows r) rows
        (due_row-Good now rows) s (DistinctIds-Same rows d) in
    let chosen = select (is_due now) rows in
    map-IsBatch rows (take n (order_by key chosen))
      (DistinctIds-take n (order_by key chosen)
        (DistinctIds-order_by key chosen (DistinctIds-select (is_due now) rows d)))
      (All-take (Good rows) n (order_by key chosen)
        (All-order_by (Good rows) key chosen (All-select (Good rows) (is_due now) rows good)))

abbrev Kept : Db → Db → Type 0
Kept db db' = All IsSound db'.deliveries × Evolves db.deliveries db'.deliveries

-- A tick of the worker, over rows with distinct ids, whatever the receivers answer and whichever
-- statements fail: no row is attempted more than five times, a row is pending only below five
-- attempts and dead only at five, a delivered or dead row never changes again, and what a row
-- delivers, and where, never changes.
pub tick-IsSound :
    (pg : Postgres) (batch_size : ℕ) (at : ℕ → Surroundings) (db : Db)
    → DistinctIds db.deliveries
    → All IsSound db.deliveries
    → let db' = (tick pg batch_size at db).1 in
      All IsSound db'.deliveries × Evolves db.deliveries db'.deliveries
unfolding tick
tick-IsSound pg n at db d s = elim (Option-cases (pg.failure Statement.select_deliveries)) [
  | inr (e, fails) ↦
      let same : (tick pg n at db).1 ≡ db = ground arith in
      subst (Kept db) (sym same) (s, Evolves-refl db.deliveries)
  | inl works ↦
      let batch = due pg.now n db.deliveries in
      let same : (tick pg n at db).1 ≡ deliver_all at batch db = ground arith in
      subst (Kept db) (sym same)
        (deliver_all-IsSound at batch db (due-IsBatch pg.now n db.deliveries d s) s)
]
