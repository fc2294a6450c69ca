-- ===== src/Keystore.antt =====
-- internal/keystore: the encrypted key files. The types of keystore.go, and what its calls of the
-- libraries and of the system answer.
pub mod Files
pub mod Keys
pub mod Names
pub mod Kept
pub mod History
pub mod Listing
pub mod Loading
pub mod Tests
use txmill.Base.{ℕ, ℤ, Bool, List, Option, Bytes, Result, Error, Addresses}

-- `os.DirEntry`, with the contents of a file.
pub record Entry : Type 0 where
  pub name : Bytes
  pub is_dir : Bool
  pub content : Bytes

pub record KdfParams : Type 0 where
  pub name : Bytes
  pub salt : Bytes
  pub time : ℕ
  pub memory : ℕ
  pub threads : ℕ
  pub key_len : ℕ

pub record CipherBlob : Type 0 where
  pub name : Bytes
  pub nonce : Bytes
  pub ciphertext : Bytes

pub record FileFormat : Type 0 where
  pub version : ℤ
  pub address : Bytes
  pub kdf : KdfParams
  pub cipher : CipherBlob

-- `cipher.AEAD`; `Open` of `none` is its panic at a nonce of the wrong length.
pub record Aead : Type 0 where
  pub nonce_size : ℕ
  pub seal : Bytes → Bytes → Bytes
  pub open_sealed : Bytes → Bytes → Option (Result Bytes)

-- The libraries: go-ethereum's `crypto` and `common`, `argon2.IDKey` (`none` is its panic),
-- `aes.NewCipher`, `cipher.NewGCM`, JSON, and the order in which `os.ReadDir` gives the names.
pub record Libraries : Type 0 where
  pub addresses : Addresses
  pub pubkey_to_address : ℕ → ℕ
  pub from_ecdsa : ℕ → Bytes
  pub to_ecdsa : Bytes → Result ℕ
  pub id_key : Bytes → KdfParams → Option Bytes
  pub new_cipher : Bytes → Result ℕ
  pub new_gcm : ℕ → Result Aead
  pub marshal : FileFormat → Result Bytes
  pub unmarshal : Bytes → Result FileFormat
  pub order : List Entry → List Entry

-- The answers during one call: `crypto.GenerateKey`, the two `rand.Read`, `os.WriteFile` (an error,
-- and what the file holds then, `none` where it is as it was), `os.Rename`, `os.Remove`,
-- `os.ReadFile` and `os.ReadDir`.
pub record Answers : Type 0 where
  pub generate_key : Result ℕ
  pub salt : ℕ → Result Bytes
  pub nonce : ℕ → Result Bytes
  pub write_file : Option (Error × Option Bytes)
  pub rename : Option Error
  pub remove : Option Error
  pub read_file : Option Error
  pub read_dir : Option Error
