-- ===== src/Keystore/History.antt =====
-- internal/keystore: the keys that a keystore holds over a history of calls of `Generate`.
use txmill.Base.{
  ℕ, ◌≡◌, ◌≢◌, refl, sym, ap, ◌∙◌, List, [], ◌∷◌, none, some, Bytes, ok, All, arith, Option-cases,
  Result-cases, inl, inr,
}
use txmill.Keystore.{Libraries, Answers}
use txmill.Keystore.Files.{Dir, entry_at}
use txmill.Keystore.Keys.{path, tmp_path, write, generate, load}
use txmill.Keystore.Names.{Laws, path_ne, path_ne-tmp_path}
use txmill.Keystore.Kept.{Fills, write_ne, write-load}

-- `Load` reads one file.
pub load-entry_at :
    (c : Libraries) (y : Answers) (password : Bytes) (a : ℕ) (d d' : Dir)
    → entry_at (path c a) d' ≡ entry_at (path c a) d
    → load c y password a d' ≡ load c y password a d
unfolding load
load-entry_at c y password a d d' same = ground (arith, same)

abbrev pub IsOther : Libraries → ℕ → Answers → Type 0
IsOther c a x = (key : ℕ) → x.generate_key ≡ ok key → c.pubkey_to_address key ≢ a

module _ (c : Libraries) (x : Answers) (password : Bytes) (d : Dir) where
  -- `Generate` that makes a key of another address leaves a file as it was, however it ends.
  pub generate_other :
      (a : ℕ)
      → Laws c
      → IsOther c a x
      → entry_at (path c a) (generate c x password d).1 ≡ entry_at (path c a) d
  unfolding generate
  generate_other a laws other = elim (Result-cases x.generate_key) [
    | inl (e, bad) ↦ ground (arith, bad)
    | inr (priv, made) ↦
        let addr = c.pubkey_to_address priv in
        let kept =
          write_ne c x password addr priv d (path c a) (path_ne-tmp_path c a addr)
            λ h. path_ne c a addr laws λ same. other priv made (sym same) in
        ground (arith, made, kept)
  ]

  pub generate_ok :
      (addr : ℕ)
      → (generate c x password d).0 ≡ some (ok addr)
      → (priv : ℕ) × (x.generate_key ≡ ok priv)
        × (c.pubkey_to_address priv ≡ addr)
        × ((write c x password addr priv d).0 ≡ some (ok tt))
        × ((generate c x password d).1 ≡ (write c x password addr priv d).1)
  unfolding generate
  generate_ok addr h = elim (Result-cases x.generate_key) [
    | inl (e, bad) ↦ absurd (ground arith)
    | inr (priv, made) ↦
        elim (Option-cases (write c x password (c.pubkey_to_address priv) priv d).0) [
          | inl panics ↦ absurd (ground arith)
          | inr (r, ended) ↦ elim (Result-cases r) [
            | inl (e, fails) ↦ absurd (ground arith)
            | inr (u, writes) ↦
                let is : c.pubkey_to_address priv ≡ addr = ground arith in
                (priv, made, is, ground (arith, is), ground (arith, is))
          ]
        ]
  ]

-- The directory after a history of calls of `Generate`, each with its own answers.
abbrev pub run : Libraries → Bytes → List Answers → Dir → Dir
run c password [] d = d
run c password (x ∷ xs) d = run c password xs (generate c x password d).1

entry_at-run :
    (c : Libraries) (password : Bytes) (a : ℕ) (xs : List Answers) (d : Dir)
    → Laws c
    → All (IsOther c a) xs
    → entry_at (path c a) (run c password xs d) ≡ entry_at (path c a) d
entry_at-run c password a [] d laws others = refl
entry_at-run c password a (x ∷ xs) d laws others =
    entry_at-run c password a xs (generate c x password d).1 laws others.1
    ∙ generate_other c x password d a laws others.0

-- A call of `Generate` that succeeds gives the address of the key that it made, and `Load` of that
-- address with the same password gives that key: at once, and after any later calls of `Generate`,
-- however they end, that do not make a key of the same address. It is assumed that `Open` undoes
-- `Seal`, that the readings of keys, documents and addresses undo the writings, that `rand.Read` fills
-- the slice it is given, and that the file can be read.
pub generate-load :
    (c : Libraries) (x y : Answers) (password : Bytes) (d : Dir) (addr : ℕ) (later : List Answers)
    → Laws c
    → Fills x
    → y.read_file ≡ none
    → (generate c x password d).0 ≡ some (ok addr)
    → All (IsOther c addr) later
    → (priv : ℕ) × (x.generate_key ≡ ok priv)
      × (c.pubkey_to_address priv ≡ addr)
      × (load c y password addr (run c password later (generate c x password d).1) ≡ some (ok priv))
generate-load c x y password d addr later laws fills reads h others =
    let (priv, made, is, writes, after) = generate_ok c x password d addr h in
    (
      priv,
      made,
      is,
      load-entry_at c y password addr (generate c x password d).1 _
            (entry_at-run c password addr later (generate c x password d).1 laws others)
          ∙ ap (load c y password addr) after
          ∙ write-load c x password addr priv d y laws fills writes is reads,
    )

-- `Generate` changes no file but those of the new key, the final and the temporary one; and where it
-- does not succeed, the final one too is as it was, so that no key is lost and none is half-written.
pub generate_atomic :
    (c : Libraries) (x : Answers) (password : Bytes) (d : Dir) (name : Bytes)
    → ((priv : ℕ) → x.generate_key ≡ ok priv → name ≢ tmp_path c (c.pubkey_to_address priv))
    → ((addr : ℕ) → (generate c x password d).0 ≡ some (ok addr) → name ≢ path c addr)
    → entry_at name (generate c x password d).1 ≡ entry_at name d
unfolding generate
generate_atomic c x password d name apart unless = elim (Result-cases x.generate_key) [
  | inl (e, bad) ↦ ground (arith, bad)
  | inr (priv, made) ↦
      let addr = c.pubkey_to_address priv in
      let kept =
        write_ne c x password addr priv d name (apart priv made)
          λ h. unless addr (ground (arith, made, h)) in
      ground (arith, made, kept)
]
