-- ===== src/Keystore/Keys.antt =====
-- internal/keystore/keystore.go: `Generate`, `Load`, `List` and `write`.
use txmill.Base.{
  ℕ, ◌*◌, ℤ, pos, negsuc, not, Bool, false, List, [], ◌∷◌, ◌++◌, Option, none, some, Bytes, bytes,
  bytes_eq, Result, ok, err, Error, new, wrap, ◌==◌, if◌then◌else◌, to_lower, before_suffix,
}
use txmill.Keystore.{Entry, KdfParams, CipherBlob, FileFormat, Aead, Libraries, Answers}
use txmill.Keystore.Files.{Dir, read_at, remove_at, put, move}

abbrev pub file_version : ℕ
file_version = 1

abbrev pub salt_len : ℕ
salt_len = 16

abbrev pub default_kdf : Bytes → KdfParams
default_kdf salt = record {
  name = bytes "argon2id";
  salt = salt;
  time = 1;
  memory = 64 * 1024;
  threads = 4;
  key_len = 32;
}

abbrev gcm_or : Result Aead → Result Aead
gcm_or (err e) = err (wrap "keystore: gcm" e)
gcm_or (ok gcm) = ok gcm

abbrev gcm_of : Libraries → Result ℕ → Result Aead
gcm_of c (err e) = err (wrap "keystore: aes" e)
gcm_of c (ok block) = gcm_or (c.new_gcm block)

-- `newGCM`
abbrev pub new_gcm : Libraries → Bytes → Result Aead
new_gcm c key = gcm_of c (c.new_cipher key)

-- The name of a key's file in the directory.
abbrev pub path : Libraries → ℕ → Bytes
path c addr = to_lower (c.addresses.hex addr) ++ bytes ".json"

abbrev pub tmp_path : Libraries → ℕ → Bytes
tmp_path c addr = path c addr ++ bytes ".tmp"

-- The fields of the document that `write` stores.
abbrev pub document : Libraries → ℕ → Bytes → Bytes → Bytes → FileFormat
document c addr salt nonce ciphertext = record {
  version = pos file_version;
  address = c.addresses.hex addr;
  kdf = default_kdf salt;
  cipher = record { name = bytes "aes-256-gcm"; nonce = nonce; ciphertext = ciphertext };
}

abbrev left_behind : Bytes → Option Bytes → Dir → Dir
left_behind name none d = d
left_behind name (some content) d = put name content d

abbrev removed : Answers → Bytes → Dir → Dir
removed x tmp d = elim x.remove [ none ↦ remove_at tmp d | some e ↦ d ]

-- From `os.WriteFile` on: through a temporary file.
unfoldable pub store : Libraries → Answers → ℕ → Bytes → Dir → Result (Unit {0}) × Dir
store c x addr contents d =
    let tmp = tmp_path c addr in
    elim x.write_file [
      | some (e, left) ↦ (err (wrap "keystore: write" e), left_behind tmp left d)
      | none ↦ elim x.rename [
        | some e ↦ (err (wrap "keystore: rename" e), removed x tmp (put tmp contents d))
        | none ↦ (ok tt, move tmp (path c addr) (put tmp contents d))
      ]
    ]

abbrev store_marshalled :
    Libraries → Answers → ℕ → Result Bytes → Dir → Option (Result (Unit {0})) × Dir
store_marshalled c x addr (err e) d = (some (err (wrap "keystore: marshal" e)), d)
store_marshalled c x addr (ok contents) d = let (r, d') = store c x addr contents d in (some r, d')

abbrev seal_with :
    Libraries
    → Answers
    → ℕ
    → ℕ
    → Bytes
    → Aead
    → Result Bytes
    → Dir
    → Option (Result (Unit {0})) × Dir
seal_with c x addr priv salt gcm (err e) d = (some (err (wrap "keystore: nonce" e)), d)
seal_with c x addr priv salt gcm (ok nonce) d =
    store_marshalled c x addr
      (c.marshal (document c addr salt nonce (gcm.seal nonce (c.from_ecdsa priv)))) d

abbrev write_with :
    Libraries → Answers → ℕ → ℕ → Bytes → Result Aead → Dir → Option (Result (Unit {0})) × Dir
write_with c x addr priv salt (err e) d = (some (err e), d)
write_with c x addr priv salt (ok gcm) d =
    seal_with c x addr priv salt gcm (x.nonce gcm.nonce_size) d

abbrev derived :
    Libraries → Answers → ℕ → ℕ → Bytes → Option Bytes → Dir → Option (Result (Unit {0})) × Dir
derived c x addr priv salt none d = (none, d)
derived c x addr priv salt (some dk) d = write_with c x addr priv salt (new_gcm c dk) d

abbrev salted :
    Libraries → Answers → Bytes → ℕ → ℕ → Result Bytes → Dir → Option (Result (Unit {0})) × Dir
salted c x password addr priv (err e) d = (some (err (wrap "keystore: salt" e)), d)
salted c x password addr priv (ok salt) d =
    derived c x addr priv salt (c.id_key password (default_kdf salt)) d

-- `Keystore.write`; `none` is a panic.
unfoldable pub write : Libraries → Answers → Bytes → ℕ → ℕ → Dir → Option (Result (Unit {0})) × Dir
unfolding store
write c x password addr priv d = salted c x password addr priv (x.salt salt_len) d

abbrev generated : ℕ → Option (Result (Unit {0})) × Dir → Option (Result ℕ) × Dir
generated addr (none, d) = (none, d)
generated addr (some (err e), d) = (some (err e), d)
generated addr (some (ok _), d) = (some (ok addr), d)

-- `Keystore.Generate`
unfoldable pub generate : Libraries → Answers → Bytes → Dir → Option (Result ℕ) × Dir
generate c x password d = elim x.generate_key [
  | err e ↦ (some (err (wrap "keystore: generate key" e)), d)
  | ok priv ↦ let addr = c.pubkey_to_address priv in generated addr (write c x password addr priv d)
]

abbrev parsed_key : Libraries → ℕ → Result ℕ → Result ℕ
parsed_key c addr (err e) = err (wrap "keystore: parse key" e)
parsed_key c addr (ok priv) =
    if c.pubkey_to_address priv == addr then ok priv else err (new "keystore: address mismatch")

abbrev decrypted : Libraries → ℕ → Option (Result Bytes) → Option (Result ℕ)
decrypted c addr none = none
decrypted c addr (some (err e)) = some (err (wrap "keystore: decrypt" e))
decrypted c addr (some (ok plaintext)) = some (parsed_key c addr (c.to_ecdsa plaintext))

abbrev open_with : Libraries → ℕ → CipherBlob → Result Aead → Option (Result ℕ)
open_with c addr blob (err e) = some (err e)
open_with c addr blob (ok gcm) = decrypted c addr (gcm.open_sealed blob.nonce blob.ciphertext)

abbrev pub unlock : Libraries → ℕ → CipherBlob → Option Bytes → Option (Result ℕ)
unlock c addr blob none = none
unlock c addr blob (some dk) = open_with c addr blob (new_gcm c dk)

abbrev pub is_version : ℤ → Bool
is_version (pos n) = n == file_version
is_version (negsuc n) = false

-- The checks of a parsed document, and its decryption.
unfoldable pub decrypt : Libraries → Bytes → ℕ → FileFormat → Option (Result ℕ)
decrypt c password addr f =
    if not (is_version f.version)
    then some (err (new "keystore: unsupported version"))
    else if not (bytes_eq f.kdf.name (bytes "argon2id"))
    then some (err (new "keystore: unsupported kdf"))
    else if not (bytes_eq f.cipher.name (bytes "aes-256-gcm"))
    then some (err (new "keystore: unsupported cipher"))
    else unlock c addr f.cipher (c.id_key password f.kdf)

abbrev parsed : Libraries → Bytes → ℕ → Result FileFormat → Option (Result ℕ)
parsed c password addr (err e) = some (err (wrap "keystore: parse" e))
parsed c password addr (ok f) = decrypt c password addr f

abbrev read : Libraries → Bytes → ℕ → Result Bytes → Option (Result ℕ)
read c password addr (err e) = some (err (wrap "keystore: read" e))
read c password addr (ok contents) = parsed c password addr (c.unmarshal contents)

abbrev or_failure : Option Error → Result Bytes → Result Bytes
or_failure none r = r
or_failure (some e) r = err e

-- `Keystore.Load`; `none` is a panic.
unfoldable pub load : Libraries → Answers → Bytes → ℕ → Dir → Option (Result ℕ)
load c x password addr d = read c password addr (or_failure x.read_file (read_at (path c addr) d))

abbrev listed_name : Libraries → Option Bytes → List ℕ → List ℕ
listed_name c none rest = rest
listed_name c (some hex_addr) rest =
    if c.addresses.is_hex_address hex_addr then c.addresses.hex_to_address hex_addr ∷ rest else rest

-- The loop of `List`.
unfoldable pub listed : Libraries → List Entry → List ℕ
listed c [] = []
listed c (e ∷ rest) =
    let others = listed c rest in
    if e.is_dir then others else listed_name c (before_suffix (bytes ".json") e.name) others

-- `Keystore.List`
unfoldable pub list : Libraries → Answers → Dir → Result (List ℕ)
list c x d = elim x.read_dir [
  | some e ↦ err (wrap "keystore: readdir" e)
  | none ↦ ok (listed c (c.order d))
]

-- `New`, with the answer of `os.MkdirAll`: the password that the keystore keeps.
unfoldable pub new_keystore : Option Error → Bytes → Result Bytes
new_keystore mkdir password =
    if bytes_eq password []
    then err (new "keystore: password is required")
    else elim mkdir [ some e ↦ err (wrap "keystore: mkdir" e) | none ↦ ok password ]
