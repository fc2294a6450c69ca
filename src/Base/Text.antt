-- ===== src/Base/Text.antt =====
-- Go's strings as lists of bytes: equality, prefixes and suffixes, `strings.TrimSpace` and
-- `strings.ToLower` for ASCII (a byte from 0x80 on is no space and no letter), and go-ethereum's texts
-- of addresses.
use Prim.Native.Nat.{ℕ, ◌+◌, ◌-◌}
use mathlib.Core.Path.{◌≡◌, refl}
use mathlib.Core.Option.{Option, none, some}
use mathlib.Core.Bool.{Bool, true, false, ◌&&◌, ◌||◌}
use mathlib.Core.List.{List, [], ◌∷◌, ◌++◌, reverse, map}
use native.Mathlib.Omega.{arith}
use txmill.Base.Tests.{leb, ◌==◌, if◌then◌else◌}

-- A Go string or byte slice: its bytes.
abbrev pub Bytes : Type 0
Bytes = List ℕ

-- Equality of Go strings.
unfoldable pub bytes_eq : Bytes → Bytes → Bool
bytes_eq [] [] = true
bytes_eq [] (c ∷ s) = false
bytes_eq (b ∷ r) [] = false
bytes_eq (b ∷ r) (c ∷ s) = b == c && bytes_eq r s

pub bytes_eq_refl : (s : Bytes) → bytes_eq s s ≡ true
unfolding bytes_eq
bytes_eq_refl [] = refl
bytes_eq_refl (c ∷ s) = ground (arith, bytes_eq_refl s)

pub bytes_eq-eq : (r s : Bytes) → bytes_eq r s ≡ true → r ≡ s
unfolding bytes_eq
bytes_eq-eq [] [] h = refl
bytes_eq-eq [] (c ∷ s) h = cc
bytes_eq-eq (b ∷ r) [] h = cc
bytes_eq-eq (b ∷ r) (c ∷ s) h = ground (arith, bytes_eq-eq r s)

abbrev pub is_space : ℕ → Bool
is_space c = c == 0x20 || (leb 0x09 c && leb c 0x0d)

unfoldable pub trim_left : Bytes → Bytes
trim_left [] = []
trim_left (c ∷ s) = let rest = trim_left s in if is_space c then rest else c ∷ s

-- `strings.TrimSpace`
unfoldable pub trim_space : Bytes → Bytes
unfolding trim_left
trim_space s = reverse (trim_left (reverse (trim_left s)))

-- The rest of a text after a prefix.
unfoldable pub after_prefix : Bytes → Bytes → Option Bytes
after_prefix [] s = some s
after_prefix (c ∷ prefix) [] = none
after_prefix (c ∷ prefix) (b ∷ s) =
    let rest = after_prefix prefix s in if c == b then rest else none

pub after_prefix-append : (p s : Bytes) → after_prefix p (p ++ s) ≡ some s
unfolding after_prefix
after_prefix-append [] s = refl
after_prefix-append (c ∷ p) s = ground (arith, after_prefix-append p s)

pub after_prefix_sound : (p s rest : Bytes) → after_prefix p s ≡ some rest → s ≡ p ++ rest
unfolding after_prefix
after_prefix_sound [] s rest h = ground arith
after_prefix_sound (c ∷ p) [] rest h = cc
after_prefix_sound (c ∷ p) (b ∷ s) rest h = ground (arith, after_prefix_sound p s rest)

abbrev lower_byte : ℕ → ℕ
lower_byte c = if leb b'A' c && leb c b'Z' then c + 32 else c

-- `strings.ToLower`, for ASCII.
abbrev pub to_lower : Bytes → Bytes
to_lower s = map lower_byte s

abbrev upper_byte : ℕ → ℕ
upper_byte c = if leb b'a' c && leb c b'z' then c - 32 else c

-- `strings.ToUpper`
abbrev pub to_upper : Bytes → Bytes
to_upper s = map upper_byte s

abbrev cons_to : ℕ → Option Bytes → Option Bytes
cons_to c none = none
cons_to c (some s) = some (c ∷ s)

-- The rest of a text before a suffix (`strings.HasSuffix` and `strings.TrimSuffix`).
unfoldable pub before_suffix : Bytes → Bytes → Option Bytes
unfolding bytes_eq
before_suffix suffix [] = if bytes_eq [] suffix then some [] else none
before_suffix suffix (c ∷ s) =
    let rest = cons_to c (before_suffix suffix s) in
    if bytes_eq (c ∷ s) suffix then some [] else rest

-- go-ethereum's `common.Address.Hex`, `common.IsHexAddress` and `common.HexToAddress`.
pub record Addresses : Type 0 where
  pub hex : ℕ → Bytes
  pub is_hex_address : Bytes → Bool
  pub hex_to_address : Bytes → ℕ
