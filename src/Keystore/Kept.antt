-- ===== src/Keystore/Kept.antt =====
-- internal/keystore: what `Generate` stores, `Load` gives back, then and after any later calls.
use txmill.Base.{
  ℕ, ◌≡◌, ◌≢◌, ap, ◌∙◌, ◌⊎◌, inl, inr, false, none, some, Bytes, ok, arith, length, Option-cases,
  Result-cases, bytes_eq, ==_refl,
}
use txmill.Keystore.{Aead, Libraries, Answers}
use txmill.Keystore.Files.{
  Dir, entry_at, put, move, entry_at-remove_ne, entry_at-put_ne, entry_at-move-put,
  entry_at-move-put_ne,
}
use txmill.Keystore.Keys.{
  path, tmp_path, default_kdf, document, store, write, decrypt, load, salt_len,
}
use txmill.Keystore.Names.{Laws}

-- `rand.Read` fills the slice that it is given.
abbrev pub Fills : Answers → Type 0
Fills x = (n : ℕ) (b : Bytes) → x.nonce n ≡ ok b → length b ≡ n

-- The document of a key, sealed under the password and marshalled.
pub record Sealed (c : Libraries) (x : Answers) (password : Bytes) (addr priv : ℕ)
    (contents : Bytes) : Type 0 where
  pub salt : Bytes
  pub dk : Bytes
  pub block : ℕ
  pub gcm : Aead
  pub nonce : Bytes
  pub derived : c.id_key password (default_kdf salt) ≡ some dk
  pub ciphered : c.new_cipher dk ≡ ok block
  pub sealing : c.new_gcm block ≡ ok gcm
  pub drawn : x.nonce gcm.nonce_size ≡ ok nonce
  pub marshalled :
      c.marshal (document c addr salt nonce (gcm.seal nonce (c.from_ecdsa priv))) ≡ ok contents

module _ (c : Libraries) (x : Answers) (password : Bytes) (addr priv : ℕ) (d : Dir) where
  store_ne :
      (contents other : Bytes)
      → other ≢ tmp_path c addr
      → ((store c x addr contents d).0 ≡ ok tt → other ≢ path c addr)
      → entry_at other (store c x addr contents d).1 ≡ entry_at other d
  unfolding store
  store_ne contents other h k = elim (Option-cases x.write_file) [
    | inr ((e, none), fails) ↦ ground (arith, fails)
    | inr ((e, some left), fails) ↦
        ground (arith, fails, entry_at-put_ne (tmp_path c addr) other left d h)
    | inl written ↦ elim (Option-cases x.rename) [
      | inl moved ↦
          let apart : other ≢ path c addr = k (ground (arith, written, moved)) in
          ground (
            arith,
            written,
            moved,
            entry_at-move-put_ne (tmp_path c addr) (path c addr) other contents d h apart,
          )
      | inr (e, unmoved) ↦ elim (Option-cases x.remove) [
        | inr (e', stays) ↦
            ground
              (arith, written, unmoved, stays, entry_at-put_ne (tmp_path c addr) other contents d h)
        | inl gone ↦ ground (
          arith,
          written,
          unmoved,
          gone,
          entry_at-remove_ne (tmp_path c addr) other (put (tmp_path c addr) contents d) h,
          entry_at-put_ne (tmp_path c addr) other contents d h,
        )
      ]
    ]
  ]

  -- `write` stops before it has written anything, or stores a sealed document.
  pub write_cases :
      (((write c x password addr priv d).0 ≢ some (ok tt))
        × ((write c x password addr priv d).1 ≡ d))
      ⊎ ((contents : Bytes) × Sealed c x password addr priv contents
          × (write c x password addr priv d
              ≡ (some (store c x addr contents d).0, (store c x addr contents d).1)))
  unfolding write
  write_cases = elim (Result-cases (x.salt salt_len)) [
    | inl (e, dry) ↦ inl (λ h. ground (arith, h), ground arith)
    | inr (salt, salted) ↦ elim (Option-cases (c.id_key password (default_kdf salt))) [
      | inl panics ↦ inl (λ h. ground (arith, h), ground arith)
      | inr (dk, derived) ↦ elim (Result-cases (c.new_cipher dk)) [
        | inl (e, bad) ↦ inl (λ h. ground (arith, h), ground arith)
        | inr (block, ciphered) ↦ elim (Result-cases (c.new_gcm block)) [
          | inl (e, bad) ↦ inl (λ h. ground (arith, h), ground arith)
          | inr (gcm, sealing) ↦ elim (Result-cases (x.nonce gcm.nonce_size)) [
            | inl (e, dry) ↦ inl (λ h. ground (arith, h), ground arith)
            | inr (nonce, drawn) ↦
                let doc = document c addr salt nonce (gcm.seal nonce (c.from_ecdsa priv)) in
                elim (Result-cases (c.marshal doc)) [
                  | inl (e, bad) ↦ inl (λ h. ground (arith, h), ground arith)
                  | inr (contents, marshalled) ↦ inr (
                    contents,
                    record {
                      salt = salt;
                      dk = dk;
                      block = block;
                      gcm = gcm;
                      nonce = nonce;
                      derived = derived;
                      ciphered = ciphered;
                      sealing = sealing;
                      drawn = drawn;
                      marshalled = marshalled;
                    },
                    ground arith,
                  )
                ]
          ]
        ]
      ]
    ]
  ]

  pub write_ne :
      (other : Bytes)
      → other ≢ tmp_path c addr
      → ((write c x password addr priv d).0 ≡ some (ok tt) → other ≢ path c addr)
      → entry_at other (write c x password addr priv d).1 ≡ entry_at other d
  write_ne other h k = elim write_cases [
    | inl (stops, same) ↦ ap (entry_at other) same
    | inr (contents, is_sealed, is) ↦
        ap (λ r. entry_at other r.1) is
        ∙ store_ne contents other h λ stored. k (ground (arith, is, stored))
  ]

  pub store_ok :
      (contents : Bytes)
      → (store c x addr contents d).0 ≡ ok tt
      → (store c x addr contents d).1
        ≡ move (tmp_path c addr) (path c addr) (put (tmp_path c addr) contents d)
  unfolding store
  store_ok contents h = elim (Option-cases x.write_file) [
    | inr ((e, left), fails) ↦ absurd (ground arith)
    | inl written ↦ elim (Option-cases x.rename) [
      | inr (e, unmoved) ↦ absurd (ground arith)
      | inl moved ↦ ground arith
    ]
  ]

  write_ok :
      (write c x password addr priv d).0 ≡ some (ok tt)
      → (contents : Bytes) × Sealed c x password addr priv contents
        × (entry_at (path c addr) (write c x password addr priv d).1
            ≡ some (record { name = path c addr; is_dir = false; content = contents }))
  write_ok h = elim write_cases [
    | inl (stops, same) ↦ absurd (stops h)
    | inr (contents, is_sealed, is) ↦
        let stored : (store c x addr contents d).0 ≡ ok tt = ground (arith, is) in
        (
          contents,
          is_sealed,
          ap (λ r. entry_at (path c addr) r.1) is
              ∙ ap (entry_at (path c addr)) (store_ok contents stored)
              ∙ entry_at-move-put (tmp_path c addr) (path c addr) contents d,
        )
  ]

  decrypt-Sealed :
      (contents : Bytes)
      → Laws c
      → Fills x
      → (z : Sealed c x password addr priv contents) → c.pubkey_to_address priv ≡ addr
      → decrypt c password addr
          (document c addr z.salt z.nonce (z.gcm.seal z.nonce (c.from_ecdsa priv)))
        ≡ some (ok priv)
  unfolding decrypt bytes_eq
  decrypt-Sealed contents laws fills z is =
      let opened =
        laws.opens z.block z.gcm z.nonce (c.from_ecdsa priv) z.sealing
          (fills z.gcm.nonce_size z.nonce z.drawn) in
      ground (arith, z.derived, z.ciphered, z.sealing, opened, laws.reads priv, is, ==_refl addr)

  pub write-load :
      (y : Answers)
      → Laws c
      → Fills x
      → (write c x password addr priv d).0 ≡ some (ok tt)
      → c.pubkey_to_address priv ≡ addr
      → y.read_file ≡ none
      → load c y password addr (write c x password addr priv d).1 ≡ some (ok priv)
  unfolding load
  write-load y laws fills h is reads =
      let (contents, z, there) = write_ok h in
      let doc = document c addr z.salt z.nonce (z.gcm.seal z.nonce (c.from_ecdsa priv)) in
      ground (
        arith,
        there,
        laws.parses doc contents z.marshalled,
        decrypt-Sealed contents laws fills z is,
      )
