-- ===== src/Keystore/Listing.antt =====
-- internal/keystore: which addresses `List` gives.
use txmill.Base.{
  ℕ, ◌≡◌, refl, sym, ap, ◌∙◌, inl, inr, Bool, true, false, not, ◌&&◌, ◌||◌, List, [], ◌∷◌, ◌++◌,
  Option, none, some, Bytes, bytes, Result, ok, err, arith, Bool-cases, Option-cases, Result-cases,
  bytes_eq, bytes_eq-eq, before_suffix, to_lower, ◌==◌,
}
use txmill.Keystore.{Entry, Libraries, Answers}
use txmill.Keystore.Files.{Dir, remove_at, put, entry_at-put_self}
use txmill.Keystore.Keys.{path, tmp_path, store, write, generate, listed, list}
use txmill.Keystore.Names.{Laws, before_suffix-append, before_suffix-tmp}
use txmill.Keystore.Kept.{write_cases}

abbrev pub any {ℓ} : {A : Type ℓ} → (A → Bool) → List A → Bool
any p [] = false
any p (x ∷ xs) = p x || any p xs

any-append :
    {A : Type 0} (p : A → Bool) (xs : List A) (y : A) → any p (xs ++ y ∷ []) ≡ (any p xs || p y)
any-append p [] y = ground arith
any-append p (x ∷ xs) y = ground (arith, any-append p xs y)

any-remove :
    (p : Entry → Bool) (name : Bytes) (q : Bool) (d : Dir)
    → ((e : Entry) → e.name ≡ name → p e ≡ true → q ≡ true)
    → (any p (remove_at name d) || q) ≡ (any p d || q)
any-remove p name q [] h = refl
any-remove p name q (e ∷ d) h = elim (Bool-cases (bytes_eq e.name name)) [
  | inr kept ↦ ground (arith, any-remove p name q d h)
  | inl gone ↦ ground (arith, any-remove p name q d h, h e (bytes_eq-eq e.name name gone))
]

-- The address of an entry that `List` takes.
abbrev shown : Libraries → ℕ → Option Bytes → Bool
shown c a none = false
shown c a (some hex_addr) =
    c.addresses.is_hex_address hex_addr && (c.addresses.hex_to_address hex_addr == a)

abbrev shows : Libraries → ℕ → Entry → Bool
shows c a e = not e.is_dir && shown c a (before_suffix (bytes ".json") e.name)

listed-shows :
    (c : Libraries) (a : ℕ) (d : Dir) → any (λ b. b == a) (listed c d) ≡ any (shows c a) d
unfolding listed
listed-shows c a [] = refl
listed-shows c a (e ∷ d) = elim (Option-cases (before_suffix (bytes ".json") e.name)) [
  | inl other ↦ ground (arith, listed-shows c a d)
  | inr (hex_addr, named) ↦ ground (arith, listed-shows c a d)
]

abbrev is_ok : {A : Type 0} → Result A → Bool
is_ok (ok a) = true
is_ok (err e) = false

module _ (c : Libraries) (a : ℕ) where
  shows-tmp : (addr : ℕ) (e : Entry) → e.name ≡ tmp_path c addr → shows c a e ≡ false
  shows-tmp addr e h = ground (arith, h, before_suffix-tmp (path c addr))

  shows-path :
      (addr : ℕ) (e : Entry)
      → Laws c
      → e.name ≡ path c addr
      → shows c a e ≡ (not e.is_dir && addr == a)
  shows-path addr e laws h =
      let named = before_suffix-append (bytes ".json") (to_lower (c.addresses.hex addr)) in
      ground (arith, h, named, laws.is_address addr, laws.address_of addr)

  any-remove_tmp :
      (addr : ℕ) (d : Dir) → any (shows c a) (remove_at (tmp_path c addr) d) ≡ any (shows c a) d
  any-remove_tmp addr d =
      let same =
        any-remove (shows c a) (tmp_path c addr) false d λ e h s. sym (shows-tmp addr e h) ∙ s in
      ground (arith, same)

  any-put_tmp :
      (addr : ℕ) (contents : Bytes) (d : Dir)
      → any (shows c a) (put (tmp_path c addr) contents d) ≡ any (shows c a) d
  any-put_tmp addr contents d =
      let e : Entry = record { name = tmp_path c addr; is_dir = false; content = contents } in
      any-append (shows c a) (remove_at (tmp_path c addr) d) e
      ∙ ground (arith, any-remove_tmp addr d, shows-tmp addr e refl)

  any-put-path :
      (addr : ℕ) (contents : Bytes) (d : Dir)
      → Laws c
      → any (shows c a) (put (path c addr) contents d) ≡ (any (shows c a) d || addr == a)
  any-put-path addr contents d laws =
      let e : Entry = record { name = path c addr; is_dir = false; content = contents } in
      let same =
        any-remove (shows c a) (path c addr) (addr == a) d
          λ x h s. ground (arith, shows-path addr x laws h, s) in
      any-append (shows c a) (remove_at (path c addr) d) e
      ∙ ground (arith, same, shows-path addr e laws refl)

  any-store :
      (x : Answers) (addr : ℕ) (contents : Bytes) (d : Dir)
      → Laws c
      → any (shows c a) (store c x addr contents d).1
        ≡ (any (shows c a) d || (is_ok (store c x addr contents d).0 && addr == a))
  unfolding store
  any-store x addr contents d laws =
      let tmp = tmp_path c addr in
      let there = any-put_tmp addr contents d in
      elim (Option-cases x.write_file) [
        | inr ((e, none), fails) ↦ ground (arith, fails)
        | inr ((e, some left), fails) ↦ ground (arith, fails, any-put_tmp addr left d)
        | inl written ↦ elim (Option-cases x.rename) [
          | inr (e, unmoved) ↦ elim (Option-cases x.remove) [
            | inr (e', stays) ↦ ground (arith, written, unmoved, stays, there)
            | inl gone ↦
                ground
                  (arith, written, unmoved, gone, there, any-remove_tmp addr (put tmp contents d))
          ]
          | inl moved ↦ ground (
            arith,
            written,
            moved,
            there,
            entry_at-put_self tmp contents d,
            any-remove_tmp addr (put tmp contents d),
            any-put-path addr contents (remove_at tmp (put tmp contents d)) laws,
          )
        ]
      ]

-- The call succeeded with the address.
abbrev pub gives : ℕ → Option (Result ℕ) → Bool
gives a (some (ok addr)) = addr == a
gives a (some (err e)) = false
gives a none = false

-- `os.ReadDir` gives the entries in an order of its own.
abbrev pub Reorders : Libraries → Type 0
Reorders c = (p : Entry → Bool) (d : Dir) → any p (c.order d) ≡ any p d

any-generate :
    (c : Libraries) (x : Answers) (password : Bytes) (d : Dir) (a : ℕ)
    → Laws c
    → any (shows c a) (generate c x password d).1
      ≡ (any (shows c a) d || gives a (generate c x password d).0)
unfolding generate
any-generate c x password d a laws = elim (Result-cases x.generate_key) [
  | inl (e, bad) ↦ ground (arith, bad)
  | inr (priv, made) ↦
      let addr = c.pubkey_to_address priv in
      elim (write_cases c x password addr priv d) [
        | inl (stops, same) ↦ elim (Option-cases (write c x password addr priv d).0) [
          | inl panics ↦ ground (arith, made, same, panics)
          | inr (r, ended) ↦ elim (Result-cases r) [
            | inl (e, bad) ↦ ground (arith, made, same, ended, bad)
            | inr (u, good) ↦ absurd (stops (ended ∙ ap some good))
          ]
        ]
        | inr (contents, is_sealed, is) ↦ elim (Result-cases (store c x addr contents d).0) [
          | inl (e, bad) ↦ ground (arith, made, is, bad, any-store c a x addr contents d laws)
          | inr (u, good) ↦ ground (arith, made, is, good, any-store c a x addr contents d laws)
        ]
      ]
]

-- After a call of `Generate`, however it ended, `List` gives exactly the addresses that it gave before
-- and, if the call succeeded, the new one: an unfinished key is never listed. It is assumed that an
-- address is read back from its text, and that both readings of the directory give its entries, in
-- any order.
pub generate-list :
    (c : Libraries) (x y : Answers) (password : Bytes) (d : Dir) (a : ℕ) (before after : List ℕ)
    → Laws c
    → Reorders c
    → list c y d ≡ ok before
    → list c y (generate c x password d).1 ≡ ok after
    → any (λ b. b == a) after ≡ (any (λ b. b == a) before || gives a (generate c x password d).0)
unfolding list
generate-list c x y password d a before after laws reorders was is =
    elim (Option-cases y.read_dir) [
      | inr (e, fails) ↦ absurd (ground arith)
      | inl reads ↦
          let new : after ≡ listed c (c.order (generate c x password d).1) = ground arith in
          let old : before ≡ listed c (c.order d) = ground arith in
          ground (
            arith,
            new,
            old,
            listed-shows c a (c.order d),
            listed-shows c a (c.order (generate c x password d).1),
            reorders (shows c a) d,
            reorders (shows c a) (generate c x password d).1,
            any-generate c x password d a laws,
          )
    ]
