-- ===== src/Keystore/Tests.antt =====
-- The theorems on internal/keystore at small libraries and a directory of one other file.
use txmill.Base.{
  ℕ, zero, suc, pos, ◌≡◌, refl, ap, subst, Bool, true, false, ◌&&◌, ◌||◌, [], ◌∷◌, Option, none,
  some, Bytes, bytes, Result, ok, err, Error, new, wrap, All, arith, length, bytes_eq, bytes_eq-eq,
  ◌==◌, if◌then◌else◌, to_lower, before_suffix, Addresses,
}
use txmill.Keystore.{Entry, KdfParams, FileFormat, Aead, Libraries, Answers}
use txmill.Keystore.Files.{Dir}
use txmill.Keystore.Keys.{
  path, default_kdf, store, write, generate, decrypt, load, listed, list, is_version,
}
use txmill.Keystore.Names.{Laws}
use txmill.Keystore.Kept.{Fills}
use txmill.Keystore.History.{IsOther, run, generate-load}
use txmill.Keystore.Listing.{any, gives, generate-list}
use txmill.Keystore.Loading.{Document, load_lem}

abbrev zeros : ℕ → Bytes
zeros zero = []
zeros (suc n) = b'0' ∷ zeros n

length-zeros : (n : ℕ) → length (to_lower (zeros n)) ≡ n
length-zeros zero = refl
length-zeros (suc n) = ap suc (length-zeros n)

-- An address is written as that many zeros.
abbrev pub addresses : Addresses
addresses = record { hex = zeros; is_hex_address = λ s. true; hex_to_address = length }

abbrev pub gcm : Aead
gcm = record {
  nonce_size = 2;
  seal = λ nonce text. text;
  open_sealed = λ nonce text. if length nonce == 2 then some (ok text) else none;
}

abbrev document_of : ℕ → FileFormat
document_of k = record {
  version = pos 1;
  address = zeros k;
  kdf = default_kdf (1 ∷ []);
  cipher = record { name = bytes "aes-256-gcm"; nonce = 1 ∷ 2 ∷ []; ciphertext = k ∷ [] };
}

abbrev is_default : KdfParams → Bool
is_default kdf =
    bytes_eq kdf.name (bytes "argon2id")
    && bytes_eq kdf.salt (1 ∷ [])
    && kdf.time == 1
    && kdf.memory == 65536
    && kdf.threads == 4
    && kdf.key_len == 32

abbrev is_document : ℕ → FileFormat → Bool
is_document k f =
    is_version f.version
    && bytes_eq f.address (zeros k)
    && is_default f.kdf
    && bytes_eq f.cipher.name (bytes "aes-256-gcm")
    && bytes_eq f.cipher.nonce (1 ∷ 2 ∷ [])
    && bytes_eq f.cipher.ciphertext (k ∷ [])

-- A document is written as its key.
abbrev marshal_key : FileFormat → Bytes → Result Bytes
marshal_key f (k ∷ []) = if is_document k f then ok (k ∷ []) else err (new "marshal")
marshal_key f [] = err (new "marshal")
marshal_key f (k ∷ l ∷ rest) = err (new "marshal")

abbrev with_time : ℕ → FileFormat → FileFormat
with_time n f = record f { kdf = record f.kdf { time = n } }

-- A second number is the rounds of argon2.
abbrev unmarshal : Bytes → Result FileFormat
unmarshal (k ∷ []) = ok (document_of k)
unmarshal [] = err (new "unmarshal")
unmarshal (k ∷ l ∷ rest) = ok (with_time l (document_of k))

abbrev key_of : Bytes → Result ℕ
key_of [] = err (new "invalid length")
key_of (k ∷ rest) = ok k

abbrev pub libraries : Libraries
libraries = record {
  addresses = addresses;
  pubkey_to_address = λ k. k;
  from_ecdsa = λ k. k ∷ [];
  to_ecdsa = key_of;
  id_key = λ password kdf. if kdf.time == 0 || kdf.threads == 0 then none else some password;
  new_cipher = λ key. ok 0;
  new_gcm = λ block. ok gcm;
  marshal = λ f. marshal_key f f.cipher.ciphertext;
  unmarshal = unmarshal;
  order = λ d. d;
}

document-eq : (k : ℕ) (f : FileFormat) → is_document k f ≡ true → f ≡ document_of k
document-eq k f h = ground (
  arith,
  bytes_eq-eq f.address (zeros k),
  bytes_eq-eq f.kdf.name (bytes "argon2id"),
  bytes_eq-eq f.kdf.salt (1 ∷ []),
  bytes_eq-eq f.cipher.name (bytes "aes-256-gcm"),
  bytes_eq-eq f.cipher.nonce (1 ∷ 2 ∷ []),
  bytes_eq-eq f.cipher.ciphertext (k ∷ []),
)

marshal-key :
    (f : FileFormat) (text contents : Bytes)
    → marshal_key f text ≡ ok contents
    → unmarshal contents ≡ ok f
marshal-key f [] contents h = absurd (ground arith)
marshal-key f (k ∷ l ∷ rest) contents h = absurd (ground arith)
marshal-key f (k ∷ []) contents h = ground (arith, document-eq k f)

gcm_of : (g : Aead) → ok gcm ≡ ok g → gcm ≡ g
gcm_of g e = ground (arith, e)

pub laws : Laws libraries
laws = record {
  opens = λ block g nonce text e n.
      subst
        (λ g.
          length nonce ≡ g.nonce_size → g.open_sealed nonce (g.seal nonce text) ≡ some (ok text))
        (gcm_of g e) (λ n. ground arith) n;
  reads = λ k. refl;
  parses = λ f contents h. marshal-key f f.cipher.ciphertext contents h;
  is_address = λ a. refl;
  address_of = length-zeros;
}

abbrev pub answers_for : ℕ → Option Error → Answers
answers_for key rename = record {
  generate_key = ok key;
  salt = λ n. ok (1 ∷ []);
  nonce = λ n. if n == 2 then ok (1 ∷ 2 ∷ []) else err (new "rand");
  write_file = none;
  rename = rename;
  remove = none;
  read_file = none;
  read_dir = none;
}

abbrev answers : Answers
answers = answers_for 3 none

abbrev failing : Answers
failing = answers_for 5 (some (new "rename"))

answers-Fills : Fills answers
answers-Fills n b h = ground arith

abbrev pub password : Bytes
password = bytes "secret"

abbrev other_file : Entry
other_file = record { name = bytes "notes.txt"; is_dir = false; content = [] }

abbrev pub dir : Dir
dir = other_file ∷ []

generates : (generate libraries answers password dir).0 ≡ some (ok 3)
unfolding generate write store bytes_eq
generates = refl

later-IsOther : All (IsOther libraries 3) (failing ∷ [])
later-IsOther = (λ key made e. ground arith, tt)

generate-load_example :
    (priv : ℕ) × (answers.generate_key ≡ ok priv)
    × (libraries.pubkey_to_address priv ≡ 3)
    × (load libraries answers password 3
          (run libraries password (failing ∷ []) (generate libraries answers password dir).1)
        ≡ some (ok priv))
generate-load_example =
    generate-load libraries answers answers password dir 3 (failing ∷ []) laws answers-Fills refl
      generates later-IsOther

fails :
    (generate libraries failing password dir).0
    ≡ some (err (wrap "keystore: rename" (new "rename")))
unfolding generate write store bytes_eq
fails = refl

listed_before : list libraries answers dir ≡ ok []
unfolding list listed before_suffix bytes_eq
listed_before = refl

listed_after : list libraries answers (generate libraries answers password dir).1 ≡ ok (3 ∷ [])
unfolding list listed before_suffix generate write store bytes_eq
listed_after = refl

generate-list_example :
    any (λ b. b == 3) (3 ∷ [])
    ≡ (any (λ b. b == 3) [] || gives 3 (generate libraries answers password dir).0)
generate-list_example =
    generate-list libraries answers answers password dir 3 [] (3 ∷ []) laws (λ p d. refl)
      listed_before listed_after

abbrev key_file : Bytes → Dir
key_file contents = record { name = path libraries 3; is_dir = false; content = contents } ∷ dir

loads : load libraries answers password 3 (key_file (3 ∷ [])) ≡ some (ok 3)
unfolding load decrypt bytes_eq
loads = refl

load_lem_example :
    (libraries.pubkey_to_address 3 ≡ 3)
    × ((f : FileFormat) × Document libraries answers 3 (key_file (3 ∷ [])) f)
load_lem_example = load_lem libraries answers password 3 (key_file (3 ∷ [])) 3 loads
