-- ===== src/Keystore/Names.antt =====
-- internal/keystore: the names of the key files, and of the temporary ones.
use txmill.Base.{
  ℕ, ◌≡◌, ◌≢◌, refl, sym, ap, ◌∙◌, true, false, [], ◌∷◌, ◌++◌, none, some, Bytes, bytes, bytes_eq,
  bytes_eq_refl, bytes_eq-eq, ok, length, length-append, before_suffix, to_lower, arith, Bool-cases,
  inl, inr,
}
use txmill.Keystore.{FileFormat, Aead, Libraries}
use txmill.Keystore.Keys.{path, tmp_path}

-- What the code relies on of the libraries: `Open` undoes `Seal` for a nonce of the right length, and
-- the readings of keys, documents and addresses undo the writings.
pub record Laws (c : Libraries) : Type 0 where
  pub opens :
      (block : ℕ) (gcm : Aead) (nonce plaintext : Bytes)
      → c.new_gcm block ≡ ok gcm
      → length nonce ≡ gcm.nonce_size
      → gcm.open_sealed nonce (gcm.seal nonce plaintext) ≡ some (ok plaintext)
  pub reads : (key : ℕ) → c.to_ecdsa (c.from_ecdsa key) ≡ ok key
  pub parses :
      (f : FileFormat) (contents : Bytes) → c.marshal f ≡ ok contents → c.unmarshal contents ≡ ok f
  pub is_address : (a : ℕ) → c.addresses.is_hex_address (to_lower (c.addresses.hex a)) ≡ true
  pub address_of : (a : ℕ) → c.addresses.hex_to_address (to_lower (c.addresses.hex a)) ≡ a

longer : (c : ℕ) (s suffix : Bytes) → bytes_eq (c ∷ s ++ suffix) suffix ≡ false
longer c s suffix = elim (Bool-cases (bytes_eq (c ∷ s ++ suffix) suffix)) [
  | inr differs ↦ differs
  | inl same ↦
      let sizes : length (c ∷ s ++ suffix) ≡ length suffix =
        ap length (bytes_eq-eq (c ∷ s ++ suffix) suffix same) in
      absurd (omega (arith, sizes, length-append s suffix))
]

pub before_suffix-append : (suffix s : Bytes) → before_suffix suffix (s ++ suffix) ≡ some s
unfolding before_suffix bytes_eq
before_suffix-append [] [] = refl
before_suffix-append (c ∷ suffix) [] = ground (arith, bytes_eq_refl (c ∷ suffix))
before_suffix-append suffix (c ∷ s) =
    ground (arith, before_suffix-append suffix s, longer c s suffix)

not_json : (s : Bytes) → bytes_eq (s ++ bytes ".tmp") (bytes ".json") ≡ false
unfolding bytes_eq
not_json [] = refl
not_json (a ∷ []) = ground arith
not_json (a ∷ b ∷ []) = ground arith
not_json (a ∷ b ∷ c ∷ []) = ground arith
not_json (a ∷ b ∷ c ∷ d ∷ []) = ground arith
not_json (a ∷ b ∷ c ∷ d ∷ e ∷ []) = ground arith
not_json (a ∷ b ∷ c ∷ d ∷ e ∷ f ∷ s) = ground arith

pub before_suffix-tmp : (s : Bytes) → before_suffix (bytes ".json") (s ++ bytes ".tmp") ≡ none
unfolding before_suffix bytes_eq
before_suffix-tmp [] = refl
before_suffix-tmp (c ∷ s) = ground (arith, before_suffix-tmp s, not_json (c ∷ s))

module _ (c : Libraries) where
  pub path_ne-tmp_path : (a b : ℕ) → path c a ≢ tmp_path c b
  path_ne-tmp_path a b same =
      let json = before_suffix-append (bytes ".json") (to_lower (c.addresses.hex a)) in
      let tmp = before_suffix-tmp (path c b) in
      absurd (ground (arith, sym json ∙ ap (before_suffix (bytes ".json")) same ∙ tmp))

  pub path_ne : (a b : ℕ) → Laws c → a ≢ b → path c a ≢ path c b
  path_ne a b laws h same =
      let json = before_suffix-append (bytes ".json") (to_lower (c.addresses.hex a)) in
      let json' = before_suffix-append (bytes ".json") (to_lower (c.addresses.hex b)) in
      let names : some (to_lower (c.addresses.hex a)) ≡ some (to_lower (c.addresses.hex b)) =
        sym json ∙ ap (before_suffix (bytes ".json")) same ∙ json' in
      let texts : to_lower (c.addresses.hex a) ≡ to_lower (c.addresses.hex b) =
        ground (arith, names) in
      h (sym (laws.address_of a) ∙ ap c.addresses.hex_to_address texts ∙ laws.address_of b)
