-- ===== src/Provision.antt =====
-- How internal/app, internal/keystore and internal/signer work together: the keys that `Create` asks
-- the keystore for are those that the pool loads for the new app.
mod Tests
use mathlib.Core.List.{Mem, Perm, mem-cons, mem-cons_self, mem-cons_of_mem, not-mem-nil}
use mathlib.Core.List.Perm
use mathlib.Core.Logic.Or
use mathlib.Core.Bool.{Bool-set}
use native.Mathlib.Decide.{ℕ_discrete}
use txmill.Base.{
  ℕ, zero, suc, ◌+◌, ◌≤◌, ◌<◌, ◌≡◌, ◌≢◌, refl, sym, ap, subst, ◌∙◌, inl, inr, Bool, true, false,
  List, [], ◌∷◌, ◌++◌, map, Option, none, some, Bytes, Result, ok, err, Error, new, All, arith,
  length, lookup, insert, ◌==◌, ==_refl, Option-cases, Result-cases,
}
use txmill.Store.{Db, list_signers as list_signers_stmt}
use txmill.Keystore.{Libraries, Answers}
use txmill.Keystore.Files.{Dir}
use txmill.Keystore.Keys.{generate, load as load_key}
use txmill.Keystore.Names.{Laws}
use txmill.Keystore.Kept.{Fills}
use txmill.Keystore.History.{IsOther, load-entry_at, generate_other, generate-load}
use txmill.App.{Service, CreateInput, CreateResult, AppWorld}
use txmill.App.Create.{create, generate_signers}
use txmill.App.Created.{create_lem, create-generated}
use txmill.App.Accounts.{list_signers, create-list_signers}
use txmill.Signer.{Signer}
use txmill.Signer.Lending.{length-Perm}
use txmill.Signer.Pool.{Pool, Backends, fresh_pool, hydrate, fetch, install, load}

-- A panic ends the call as an error does.
abbrev or_panic : {A : Type 0} → Option (Result A) → Result A
or_panic none = err (new "panic")
or_panic (some r) = r

-- The keystore's directory after its first calls of `Generate`, each with its own answers.
unfoldable pub dir_after : Libraries → Bytes → (ℕ → Answers) → Dir → ℕ → Dir
dir_after c password x d zero = d
dir_after c password x d (suc k) = (generate c (x k) password (dir_after c password x d k)).1

-- `Create` with this keystore: its call `k` of `Generate` works on what the earlier ones left.
abbrev pub with_keys : Libraries → Bytes → (ℕ → Answers) → Dir → Service → Service
with_keys c password x d s = record s {
  generate = λ k. or_panic (generate c (x k) password (dir_after c password x d k)).0;
}

-- The pool's interfaces, filled by the app service, the keystore and the node.
abbrev pub backends : Service → Db → Libraries → Answers → Bytes → Dir → (ℕ → ℕ) → Backends
backends s db c y password dir nonces = record {
  list_signers = λ app. list_signers s app db;
  load_key = λ a. or_panic (load_key c y password a dir);
  pending_nonce_at = λ a. ok (nonces a);
}

-- No two calls of `Generate` make keys of one address.
abbrev pub Differ : Libraries → (ℕ → Answers) → Type 0
Differ c x =
    (j k p q : ℕ)
    → j ≢ k
    → (x j).generate_key ≡ ok p
    → (x k).generate_key ≡ ok q
    → c.pubkey_to_address p ≢ c.pubkey_to_address q

-- The key that `Load` gives is that of the address.
abbrev fits : Libraries → ℕ → Result ℕ → Bool
fits c a (err e) = false
fits c a (ok key) = c.pubkey_to_address key == a

module _ (c : Libraries) (password : Bytes) (x : ℕ → Answers) (y : Answers) (d : Dir)
    (laws : Laws c) (fills : (k : ℕ) → Fills (x k)) (differ : Differ c x)
    (reads : y.read_file ≡ none) where
  abbrev made : ℕ → Option (Result ℕ)
  made k = (generate c (x k) password (dir_after c password x d k)).0

  abbrev key_at : ℕ → ℕ → Option (Result ℕ)
  key_at m a = load_key c y password a (dir_after c password x d m)

  -- What a call made is there after it and stays.
  key_kept :
      (j m a : ℕ)
      → made j ≡ some (ok a)
      → j < m
      → (key : ℕ) × (key_at m a ≡ some (ok key)) × (c.pubkey_to_address key ≡ a)
  unfolding dir_after
  key_kept j zero a h lt = absurd (omega arith)
  key_kept j (suc m) a h lt = elim (ℕ_discrete j m) [
    | yes same ↦
        let h' = subst (λ k. made k ≡ some (ok a)) same h in
        let (key, _, is, loaded) =
          generate-load c (x m) y password (dir_after c password x d m) a [] laws (fills m) reads h'
            tt in
        (key, loaded, is)
    | no apart ↦
        let (key, loaded, is) = key_kept j m a h (omega arith) in
        let (key', made_it, own, _) =
          generate-load c (x j) y password (dir_after c password x d j) a [] laws (fills j) reads h
            tt in
        let other : IsOther c a (x m) =
          λ q e same. differ j m key' q apart made_it e (own ∙ sym same) in
        (
          key,
          load-entry_at c y password a (dir_after c password x d m) _
                (generate_other c (x m) password (dir_after c password x d m) a laws other)
              ∙ loaded,
          is,
        )
  ]

  abbrev kept : ℕ → ℕ → Bool
  kept m a = fits c a (or_panic (key_at m a))

  made-kept : (j m a : ℕ) → or_panic (made j) ≡ ok a → j < m → kept m a ≡ true
  made-kept j m a h lt = elim (Option-cases (made j)) [
    | inl panics ↦ absurd (ground arith)
    | inr (r, e) ↦
        let (key, loaded, is) = key_kept j m a (e ∙ ap some (ground arith)) lt in
        ground (arith, loaded, is, ==_refl a)
  ]

  generated-kept :
      (s : Service) (m i n : ℕ) (keys addresses : List ℕ)
      → (generate_signers (with_keys c password x d s) i n keys).0 ≡ ok addresses
      → i + n ≤ m
      → All (λ a. kept m a ≡ true) addresses × (length addresses ≡ n)
  unfolding generate_signers
  generated-kept s m i zero keys addresses h lt =
      let none_made : addresses ≡ [] = ground arith in
      (subst (All (λ a. kept m a ≡ true)) (sym none_made) tt, ap length none_made)
  generated-kept s m i (suc n) keys addresses h lt = elim (Result-cases (or_panic (made i))) [
    | inl (e, failed) ↦ absurd (ground arith)
    | inr (a, done) ↦
        let tail = generate_signers (with_keys c password x d s) (suc i) n (keys ++ a ∷ []) in
        elim (Result-cases tail.0) [
          | inl (e, failed) ↦ absurd (ground arith)
          | inr (rest, others) ↦
              let (each, count) =
                generated-kept s m (suc i) n (keys ++ a ∷ []) rest others (omega arith) in
              let all : addresses ≡ a ∷ rest = ground arith in
              (
                subst (All (λ b. kept m b ≡ true)) (sym all)
                    (made-kept i m a done (omega arith), each),
                ap length all ∙ ap suc count,
              )
        ]
  ]

Mem-All : (P : ℕ → Bool) (xs : List ℕ) (a : ℕ) → All (λ b. P b ≡ true) xs → Mem a xs → P a ≡ true
Mem-All P [] a h m = absurd (not-mem-nil m)
Mem-All P (b ∷ xs) a h m =
    Or.elim (Bool-set _ _) (mem-cons.0 m) (λ e. ap P e ∙ h.0) λ t. Mem-All P xs a h.1 t

-- Signers that hold the keys of their addresses.
abbrev pub HoldsKeys : Libraries → List Signer → Type 0
HoldsKeys c = All (λ v. c.pubkey_to_address v.key ≡ v.address)

module _ (c : Libraries) (b : Backends) (app : ℕ) (nonces : ℕ → ℕ)
    (answers : (a : ℕ) → b.pending_nonce_at a ≡ ok (nonces a)) where
  hydrate-HoldsKeys :
      (xs : List ℕ)
      → ((a : ℕ) → Mem a xs → fits c a (b.load_key a) ≡ true)
      → (signers : List Signer) × (hydrate b app xs ≡ ok signers)
        × (map (λ v. v.address) signers ≡ xs)
        × HoldsKeys c signers
  unfolding hydrate
  hydrate-HoldsKeys [] own = ([], refl, refl, tt)
  hydrate-HoldsKeys (a ∷ rest) own =
      let (signers, e, addresses, held) =
        hydrate-HoldsKeys rest (λ z m. own z (mem-cons_of_mem a m)) in
      let its = own a mem-cons_self in
      elim (Result-cases (b.load_key a)) [
        | inl (x, failed) ↦ absurd (ground arith)
        | inr (key, loaded) ↦
            let v : Signer = record { app_id = app; address = a; key = key; nonce = nonces a } in
            (v ∷ signers, ground (arith, answers a, e), ap (◌∷◌ a) addresses, (ground arith, held))
      ]

  fetch-HoldsKeys :
      (xs : List ℕ) (p : Pool)
      → b.list_signers app ≡ ok xs
      → xs ≢ []
      → lookup app p ≡ none
      → ((a : ℕ) → Mem a xs → fits c a (b.load_key a) ≡ true)
      → (signers : List Signer) × (load b p app ≡ (ok tt, insert app (fresh_pool signers) p))
        × (map (λ v. v.address) signers ≡ xs)
        × HoldsKeys c signers
  unfolding load fetch install
  fetch-HoldsKeys [] p l ne absent own = absurd (ne refl)
  fetch-HoldsKeys (a ∷ rest) p l ne absent own =
      let (signers, e, addresses, held) = hydrate-HoldsKeys (a ∷ rest) own in
      (signers, ground (arith, e), addresses, held)

length_nonzero : (xs : List ℕ) → 1 ≤ length xs → xs ≢ []
length_nonzero xs h e = absurd (omega (arith, ap length e))

-- After `Create` has succeeded, with its keys from the keystore, the pool can load the new app: it
-- gets one signer for each of the returned addresses, each with the key of its address, all of them
-- idle. It is assumed that the keystore's libraries undo what they do, that `rand.Read` fills its
-- slices, that no two keys made have one address, that files can be read, that the query for the
-- signers does not fail, that neither a signer's row nor the pool has the app's id yet, and that the
-- node answers.
pub create-load :
    (c : Libraries) (password : Bytes) (x : ℕ → Answers) (y : Answers) (d : Dir) (s : Service)
    (i : CreateInput) (w : AppWorld) (res : CreateResult) (p : Pool) (nonces : ℕ → ℕ)
    → Laws c
    → ((k : ℕ) → Fills (x k))
    → Differ c x
    → y.read_file ≡ none
    → (create (with_keys c password x d s) i w).0 ≡ ok res
    → All (λ r. r.app_id ≢ res.app_id) w.db.signers
    → s.pg.failure (list_signers_stmt res.app_id) ≡ none
    → lookup res.app_id p ≡ none
    → let made = create (with_keys c password x d s) i w in
      let dir = dir_after c password x d (suc (length res.signer_addresses)) in
      let b = backends s made.1.db c y password dir nonces in
      (signers : List Signer) × (load b p res.app_id
        ≡ (ok tt, insert res.app_id (fresh_pool signers) p))
      × Perm (map (λ v. v.address) signers) res.signer_addresses
      × HoldsKeys c signers
unfolding list_signers
create-load c password x y d s i w res p nonces laws fills differ reads h fresh works absent =
    let t = with_keys c password x d s in
    let (listed, lists, perm) = create-list_signers t i w res h fresh works in
    let (n, keys, made) = create-generated t i w res h in
    let m = suc (length res.signer_addresses) in
    let (each, count) =
      generated-kept c password x y d laws fills differ reads s (suc n) 1 n keys
        res.signer_addresses made (omega arith) in
    let b = backends s (create t i w).1.db c y password (dir_after c password x d m) nonces in
    let own : (a : ℕ) → Mem a listed → kept c password x y d laws fills differ reads m a ≡ true =
      λ a e.
        ap (λ k. kept c password x y d laws fills differ reads (suc k) a) count
        ∙ Mem-All (kept c password x y d laws fills differ reads (suc n)) res.signer_addresses a
            each ((Perm.mem_iff perm).0 e) in
    let (_, _, _, some_made, _, _, _, sized, _, _, _, _, _, _, _, _, _) = create_lem t i w res h in
    let (signers, loaded, addresses, held) =
      fetch-HoldsKeys c b res.app_id nonces (λ a. refl) listed p lists
        (length_nonzero listed (omega (arith, length-Perm perm, sized, some_made))) absent own in
    (signers, loaded, subst (λ zs. Perm zs res.signer_addresses) (sym addresses) perm, held)
