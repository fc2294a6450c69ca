-- ===== src/Base/Hex.antt =====
-- encoding/hex: two digits for each byte.
use Prim.Native.Nat.{ℕ, ◌+◌, ◌-◌, ◌*◌, ◌/◌, ◌%◌, ◌<◌}
use mathlib.Core.Path.{◌≡◌, refl}
use mathlib.Core.Bool.{◌&&◌}
use mathlib.Core.Option.{Option, none, some}
use mathlib.Core.List.{[], ◌∷◌}
use native.Mathlib.Omega.{arith}
use txmill.Base.Tests.{ltb, leb, if◌then◌else◌}
use txmill.Base.Text.{Bytes}
use txmill.Base.Lists.{All}

abbrev hex_digit : ℕ → ℕ
hex_digit n = if ltb n 10 then b'0' + n else b'a' + (n - 10)

-- `hex.EncodeToString`
unfoldable pub hex_encode : Bytes → Bytes
hex_encode [] = []
hex_encode (b ∷ rest) = hex_digit (b / 16) ∷ hex_digit (b % 16) ∷ hex_encode rest

-- The value of a digit, in either case.
abbrev pub hex_value : ℕ → Option ℕ
hex_value c =
    if leb b'0' c && leb c b'9'
    then some (c - b'0')
    else if leb b'a' c && leb c b'f'
    then some (c - b'a' + 10)
    else if leb b'A' c && leb c b'F'
    then some (c - b'A' + 10)
    else none

abbrev join_byte : Option ℕ → Option ℕ → Option Bytes → Option Bytes
join_byte (some h) (some l) (some rest) = some ((h * 16 + l) ∷ rest)
join_byte none l rest = none
join_byte (some h) none rest = none
join_byte (some h) (some l) none = none

-- `hex.DecodeString`; `none` is an odd length or a byte that is no digit.
unfoldable pub hex_decode : Bytes → Option Bytes
hex_decode [] = some []
hex_decode (c ∷ []) = none
hex_decode (c ∷ d ∷ rest) = join_byte (hex_value c) (hex_value d) (hex_decode rest)

abbrev pub IsByte : ℕ → Type 0
IsByte b = b < 256

digit_value : (n : ℕ) → n < 16 → hex_value (hex_digit n) ≡ some n
digit_value n h = ground arith

pub hex_decode-hex_encode : (s : Bytes) → All IsByte s → hex_decode (hex_encode s) ≡ some s
unfolding hex_decode hex_encode
hex_decode-hex_encode [] h = refl
hex_decode-hex_encode (b ∷ s) h = ground (
  arith,
  digit_value (b / 16) (omega arith),
  digit_value (b % 16) (omega arith),
  hex_decode-hex_encode s h.1,
)
