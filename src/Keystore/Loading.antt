-- ===== src/Keystore/Loading.antt =====
-- internal/keystore/keystore.go: of which files `Load` returns the key.
use txmill.Base.{
  ℕ, ℤ, pos, negsuc, ◌≡◌, ◌⊎◌, inl, inr, sym, ◌∙◌, true, none, some, Bytes, bytes, ok, err, arith,
  Bool-cases, Option-cases, Result-cases, bytes_eq, bytes_eq-eq, bytes_eq_refl, new, wrap, Error,
}
use txmill.Keystore.{FileFormat, Libraries, Answers}
use txmill.Keystore.Files.{Dir, read_at}
use txmill.Keystore.Keys.{path, new_gcm, unlock, decrypt, load, is_version}

-- The file of the address is a document of the version, the key derivation and the cipher that the
-- code supports.
pub record Document (c : Libraries) (y : Answers) (addr : ℕ) (d : Dir) (f : FileFormat)
    : Type 0 where
  pub contents : Bytes
  pub readable : y.read_file ≡ none
  pub read : read_at (path c addr) d ≡ ok contents
  pub parsed : c.unmarshal contents ≡ ok f
  pub version : f.version ≡ pos 1
  pub kdf : f.kdf.name ≡ bytes "argon2id"
  pub cipher : f.cipher.name ≡ bytes "aes-256-gcm"

is_version-eq : (v : ℤ) → is_version v ≡ true → v ≡ pos 1
is_version-eq (pos n) h = ground arith
is_version-eq (negsuc n) h = absurd (ground arith)

module _ (c : Libraries) (y : Answers) (password : Bytes) (addr : ℕ) (d : Dir) where
  abbrev Stops : Type 0
  Stops = (e : Error) × (load c y password addr d ≡ some (err e))

  checks :
      (contents : Bytes) (f : FileFormat)
      → y.read_file ≡ none
      → read_at (path c addr) d ≡ ok contents
      → c.unmarshal contents ≡ ok f
      → Stops ⊎ Document c y addr d f
  unfolding load decrypt
  checks contents f readable read parsed = elim (Bool-cases (is_version f.version)) [
    | inr bad ↦ inl (new "keystore: unsupported version", ground arith)
    | inl version ↦ elim (Bool-cases (bytes_eq f.kdf.name (bytes "argon2id"))) [
      | inr bad ↦ inl (new "keystore: unsupported kdf", ground arith)
      | inl kdf ↦ elim (Bool-cases (bytes_eq f.cipher.name (bytes "aes-256-gcm"))) [
        | inr bad ↦ inl (new "keystore: unsupported cipher", ground arith)
        | inl cipher ↦ inr (record {
          contents = contents;
          readable = readable;
          read = read;
          parsed = parsed;
          version = is_version-eq f.version version;
          kdf = bytes_eq-eq f.kdf.name (bytes "argon2id") kdf;
          cipher = bytes_eq-eq f.cipher.name (bytes "aes-256-gcm") cipher;
        })
      ]
    ]
  ]

  -- `Load` stops with an error, or has a document that it supports.
  load_cases : Stops ⊎ ((f : FileFormat) × Document c y addr d f)
  unfolding load
  load_cases = elim (Option-cases y.read_file) [
    | inr (e, fails) ↦ inl (wrap "keystore: read" e, ground arith)
    | inl readable ↦ elim (Result-cases (read_at (path c addr) d)) [
      | inl (e, bad) ↦ inl (wrap "keystore: read" e, ground arith)
      | inr (contents, read) ↦ elim (Result-cases (c.unmarshal contents)) [
        | inl (e, bad) ↦ inl (wrap "keystore: parse" e, ground arith)
        | inr (f, parsed) ↦ elim (checks contents f readable read parsed) [
          | inl stops ↦ inl stops
          | inr supported ↦ inr (f, supported)
        ]
      ]
    ]
  ]

  load-Document :
      (f : FileFormat)
      → Document c y addr d f
      → load c y password addr d ≡ unlock c addr f.cipher (c.id_key password f.kdf)
  unfolding load decrypt
  load-Document f doc = ground (
    arith,
    doc.readable,
    doc.read,
    doc.parsed,
    doc.version,
    doc.kdf,
    doc.cipher,
    bytes_eq_refl (bytes "argon2id"),
    bytes_eq_refl (bytes "aes-256-gcm"),
  )

  unlock-own :
      (f : FileFormat) {priv : ℕ}
      → unlock c addr f.cipher (c.id_key password f.kdf) ≡ some (ok priv)
      → c.pubkey_to_address priv ≡ addr
  unlock-own f {priv} h = elim (Option-cases (c.id_key password f.kdf)) [
    | inl panics ↦ absurd (ground arith)
    | inr (dk, derived) ↦ elim (Result-cases (new_gcm c dk)) [
      | inl (e, bad) ↦ absurd (ground arith)
      | inr (gcm, made) ↦ elim (Option-cases (gcm.open_sealed f.cipher.nonce f.cipher.ciphertext)) [
        | inl panics ↦ absurd (ground arith)
        | inr (r, opened) ↦ elim (Result-cases r) [
          | inl (e, bad) ↦ absurd (ground arith)
          | inr (text, plain) ↦ elim (Result-cases (c.to_ecdsa text)) [
            | inl (e, bad) ↦ absurd (ground arith)
            | inr (key, read) ↦ ground arith
          ]
        ]
      ]
    ]
  ]

  -- Where `Load` succeeds, the file of the address can be read and is a document of version 1, with
  -- argon2id and AES-256-GCM, and the key is one of that address, whatever the document says that its
  -- address is.
  pub load_lem :
      (priv : ℕ)
      → load c y password addr d ≡ some (ok priv)
      → (c.pubkey_to_address priv ≡ addr) × ((f : FileFormat) × Document c y addr d f)
  load_lem priv h = elim load_cases [
    | inl (e, bad) ↦ absurd (ground (arith, bad))
    | inr (f, doc) ↦ (unlock-own f (sym (load-Document f doc) ∙ h), (f, doc))
  ]
