-- ===== src/Webhook/Lifecycle.antt =====
-- internal/webhook/webhook.go: what a batch of deliveries does to the rows of `webhook_deliveries`.
use txmill.Base.{
  ℕ, ◌≤◌, ◌≡◌, ◌≢◌, ◌∙◌, sym, subst, true, inl, inr, List, [], ◌∷◌, Option, none, some, Error,
  arith, All, update_where, ◌==◌, Option-cases, Bool-cases, if◌then◌else◌,
}
use txmill.Store.{Delivery, DeliveryStatus, Db, Statement}
use txmill.Webhook.Worker.{
  PendingDelivery, Surroundings, Answer, failed, replied, deliver, deliver_all,
}
use txmill.Webhook.Retries.{
  IsSound, Snapshot, after_answer, after_delivery, answer_to, after_answer-IsSound, deliver_lem,
  deliver_fails,
}

-- How a row may change: what was signed and where it goes stay, the attempts never fall, and a
-- delivered or dead row does not change at all.
pub record Change (x y : Delivery) : Type 0 where
  pub same_id : y.id ≡ x.id
  pub same_request : y.request_id ≡ x.request_id
  pub same_url : y.url ≡ x.url
  pub same_payload : y.payload ≡ x.payload
  pub same_signature : y.signature ≡ x.signature
  pub attempts_grow : x.attempt ≤ y.attempt
  pub final_stays : x.status ≢ DeliveryStatus.pending → y ≡ x

abbrev pub Evolves : List Delivery → List Delivery → Type 0
Evolves [] [] = Unit
Evolves [] (y ∷ ys) = ⊥
Evolves (x ∷ xs) [] = ⊥
Evolves (x ∷ xs) (y ∷ ys) = Change x y × Evolves xs ys

Change-refl : (x : Delivery) → Change x x
Change-refl x = ground arith

Change-trans : (x y z : Delivery) → Change x y → Change y z → Change x z
Change-trans x y z a b = record {
  same_id = b.same_id ∙ a.same_id;
  same_request = b.same_request ∙ a.same_request;
  same_url = b.same_url ∙ a.same_url;
  same_payload = b.same_payload ∙ a.same_payload;
  same_signature = b.same_signature ∙ a.same_signature;
  attempts_grow = omega (arith, a.attempts_grow, b.attempts_grow);
  final_stays = λ f.
      b.final_stays (subst (λ v. v.status ≢ DeliveryStatus.pending) (sym (a.final_stays f)) f)
      ∙ a.final_stays f;
}

pub Evolves-refl : (xs : List Delivery) → Evolves xs xs
Evolves-refl [] = tt
Evolves-refl (x ∷ xs) = (Change-refl x, Evolves-refl xs)

pub Evolves-trans : (xs ys zs : List Delivery) → Evolves xs ys → Evolves ys zs → Evolves xs zs
Evolves-trans [] [] zs a b = b
Evolves-trans [] (y ∷ ys) zs a b = absurd a
Evolves-trans (x ∷ xs) [] zs a b = absurd a
Evolves-trans (x ∷ xs) (y ∷ ys) [] a b = absurd b
Evolves-trans (x ∷ xs) (y ∷ ys) (z ∷ zs) a b =
    (Change-trans x y z a.0 b.0, Evolves-trans xs ys zs a.1 b.1)

after_answer-Change :
    (w : Surroundings) (d : PendingDelivery) (x : Answer) (r : Delivery)
    → r.status ≡ DeliveryStatus.pending
    → r.attempt ≡ d.attempt
    → d.attempt ≤ 4
    → Change r (after_answer w d x r)
after_answer-Change w d (failed msg) r p a b = ground arith
after_answer-Change w d (replied code body) r p a b = ground arith

id_clash : {A : Type 0} (a r e d : ℕ) → (a == e) ≡ true → a ≡ r → (r == d) ≡ true → e ≢ d → A
id_clash a r e d h k l ne = absurd (ground arith)

module _ (w : Surroundings) (d : PendingDelivery) (fifth : d.attempt ≤ 4) where
  update-Evolves :
      (rows : List Delivery)
      → All (Snapshot d) rows
      → Evolves rows (update_where (λ r. r.id == d.id) (after_delivery w d) rows)
  update-Evolves [] s = tt
  update-Evolves (r ∷ rows) s = (at_head, update-Evolves rows s.1)
    where
      at_head : Change r (if r.id == d.id then after_delivery w d r else r)
      at_head = elim (Bool-cases (r.id == d.id)) [
        | inr other ↦ rw other (Change-refl r)
        | inl same ↦
            let (p, a) = s.0 same in rw same (after_answer-Change w d (answer_to w d) r p a fifth)
      ]

  update-IsSound :
      (rows : List Delivery)
      → All (Snapshot d) rows
      → All IsSound rows
      → All IsSound (update_where (λ r. r.id == d.id) (after_delivery w d) rows)
  update-IsSound [] s h = tt
  update-IsSound (r ∷ rows) s h = (at_head, update-IsSound rows s.1 h.1)
    where
      at_head : IsSound (if r.id == d.id then after_delivery w d r else r)
      at_head = elim (Bool-cases (r.id == d.id)) [
        | inr other ↦ rw other h.0
        | inl same ↦
            let (p, a) = s.0 same in rw same (after_answer-IsSound w d (answer_to w d) r h.0 p a)
      ]

  -- A delivery leaves the rows of the others as they were read.
  update-Snapshot :
      (e : PendingDelivery) (rows : List Delivery)
      → e.id ≢ d.id
      → All (Snapshot e) rows
      → All (Snapshot d) rows
      → All (Snapshot e) (update_where (λ r. r.id == d.id) (after_delivery w d) rows)
  update-Snapshot e [] ne h k = tt
  update-Snapshot e (r ∷ rows) ne h k = (at_head, update-Snapshot e rows ne h.1 k.1)
    where
      at_head : Snapshot e (if r.id == d.id then after_delivery w d r else r)
      at_head = elim (Bool-cases (r.id == d.id)) [
        | inr other ↦ rw other h.0
        | inl same ↦
            let (p, a) = k.0 same in
            let kept = (after_answer-Change w d (answer_to w d) r p a fifth).same_id in
            rw same (λ hit. id_clash _ r.id e.id d.id hit kept same ne)
      ]

-- What a batch read from the rows: attempt numbers of pending rows, each row once.
abbrev pub IsBatch : List PendingDelivery → List Delivery → Type 0
IsBatch [] rows = Unit
IsBatch (d ∷ ds) rows =
    (d.attempt ≤ 4) × All (Snapshot d) rows × All (λ e. e.id ≢ d.id) ds × IsBatch ds rows

-- What one delivery leaves: the rows as updated, or as they were if the update failed.
after_one : Surroundings → PendingDelivery → List Delivery → Option Error → List Delivery
after_one w d rows none = update_where (λ r. r.id == d.id) (after_delivery w d) rows
after_one w d rows (some e) = rows

module _ (w : Surroundings) (d : PendingDelivery) (fifth : d.attempt ≤ 4) where
  deliver-rows :
      (db : Db)
      → (deliver w d db).1.deliveries
        ≡ after_one w d db.deliveries (w.pg.failure Statement.update_delivery)
  unfolding after_one
  deliver-rows db = elim (Option-cases (w.pg.failure Statement.update_delivery)) [
    | inl works ↦ ground (arith, deliver_lem w d fifth db works)
    | inr (e, fails) ↦ ground (arith, deliver_fails w d db fails)
  ]

  after_one-IsBatch :
      (ds : List PendingDelivery) (rows : List Delivery) (o : Option Error)
      → All (Snapshot d) rows
      → All (λ e. e.id ≢ d.id) ds
      → IsBatch ds rows
      → IsBatch ds (after_one w d rows o)
  unfolding after_one
  after_one-IsBatch [] rows o s ne b = tt
  after_one-IsBatch (e ∷ ds) rows none s ne b = (
    b.0,
    update-Snapshot w d fifth e rows ne.0 b.1 s,
    b.2,
    after_one-IsBatch ds rows none s ne.1 b.3,
  )
  after_one-IsBatch (e ∷ ds) rows (some x) s ne b = b

  after_one-keeps :
      (rows : List Delivery) (o : Option Error)
      → All (Snapshot d) rows
      → All IsSound rows
      → All IsSound (after_one w d rows o) × Evolves rows (after_one w d rows o)
  unfolding after_one
  after_one-keeps rows none s h =
      (update-IsSound w d fifth rows s h, update-Evolves w d fifth rows s)
  after_one-keeps rows (some x) s h = (h, Evolves-refl rows)

-- A whole batch, whatever the receivers answer and whichever updates fail, keeps every row within
-- five attempts (pending below five, dead at five), never changes a delivered or dead row, and
-- never changes what a row delivers or where.
pub deliver_all-IsSound :
    (at : ℕ → Surroundings) (ds : List PendingDelivery) (db : Db)
    → IsBatch ds db.deliveries
    → All IsSound db.deliveries
    → All IsSound (deliver_all at ds db).deliveries
      × Evolves db.deliveries (deliver_all at ds db).deliveries
unfolding deliver_all
deliver_all-IsSound at [] db b h = (h, Evolves-refl db.deliveries)
deliver_all-IsSound at (d ∷ ds) db b h =
    let w = at d.id in
    let db' = (deliver w d db).1 in
    let o = w.pg.failure Statement.update_delivery in
    let rows = deliver-rows w d b.0 db in
    let (sound, step) = after_one-keeps w d b.0 db.deliveries o b.1 h in
    let (end, steps) =
      deliver_all-IsSound at ds db'
        (subst (IsBatch ds) (sym rows) (after_one-IsBatch w d b.0 ds db.deliveries o b.1 b.2 b.3))
        (subst (All IsSound) (sym rows) sound) in
    (
      end,
      Evolves-trans db.deliveries db'.deliveries _ (subst (Evolves db.deliveries) (sym rows) step)
          steps,
    )
