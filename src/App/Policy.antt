-- ===== src/App/Policy.antt =====
-- internal/app/app.go: the gas policy, on amounts as texts.
use txmill.Base.{
  ℕ, zero, suc, ℤ, pos, negsuc, ◌+◌, ◌-◌, ◌*◌, ◌/◌, ◌%◌, ap, inl, inr, false, Bool-cases, is_empty,
  ltb, decimal, digits_from, digits_from-cons, ◌<◌, ◌≡◌, ◌⊎◌, ◌↔◌, Bool, ◌&&◌, ◌||◌, [], ◌∷◌,
  Option, none, some, Bytes, Error, new, leb, ◌==◌, arith, if◌then◌else◌,
}

abbrev is_digit : ℕ → Bool
is_digit c = leb 0x30 c && leb c 0x39

abbrev digits_value : ℕ → Bytes → Option ℕ
digits_value n [] = some n
digits_value n (c ∷ s) =
    let rest = digits_value (n * 10 + (c - 0x30)) s in if is_digit c then rest else none

abbrev digits : Bytes → Option ℕ
digits [] = none
digits (c ∷ s) = digits_value 0 (c ∷ s)

abbrev negated : ℕ → ℤ
negated n = if n == 0 then pos 0 else negsuc (n - 1)

abbrev signed : (ℕ → ℤ) → Option ℕ → Option ℤ
signed f none = none
signed f (some n) = some (f n)

-- `big.Int.SetString` in base 10: digits, after a sign or none.
unfoldable pub set_string : Bytes → Option ℤ
set_string [] = none
set_string (c ∷ s) =
    if c == 0x2d
    then signed negated (digits s)
    else if c == 0x2b
    then signed pos (digits s)
    else signed pos (digits (c ∷ s))

abbrev uint_or_zero : Option ℤ → ℕ
uint_or_zero none = 0
uint_or_zero (some (pos n)) = n
uint_or_zero (some (negsuc n)) = 0

unfoldable pub parse_uint_or_zero : Bytes → ℕ
parse_uint_or_zero s = uint_or_zero (set_string s)

-- `validateGasPolicy`, with the error, if there is one.
unfoldable pub validate_gas_policy : Bytes → Bytes → Option Error
validate_gas_policy signer_min signer_refill =
    let min = parse_uint_or_zero signer_min in
    let refill = parse_uint_or_zero signer_refill in
    if min == 0 && refill == 0
    then none
    else if min == 0 || refill == 0
    then some
        (new "signer_min_balance and signer_refill_amount must be set together (or both zero)")
    else if leb refill min
    then some (new "signer_refill_amount must be greater than signer_min_balance")
    else none

-- Both amounts are zero, or a refill takes a signer at any balance above the minimum.
abbrev pub IsPolicy : ℕ → ℕ → Type 0
IsPolicy min refill = ((min ≡ 0) × (refill ≡ 0)) ⊎ ((0 < min) × (min < refill))

set_string-digits :
    (s : Bytes) (n : ℕ)
    → is_empty s ≡ false
    → digits_value 0 s ≡ some n
    → set_string s ≡ some (pos n)
unfolding set_string
set_string-digits [] n full h = absurd (ground arith)
set_string-digits (c ∷ s) n full h = elim (Bool-cases (is_digit c)) [
  | inl digit ↦ ground arith
  | inr other ↦ absurd (ground arith)
]

digits_value-digits_from :
    (fuel n : ℕ) (out : Bytes)
    → n < fuel
    → digits_value 0 (digits_from fuel n out) ≡ digits_value n out
digits_value-digits_from zero n out h = absurd (omega arith)
digits_value-digits_from (suc fuel) n out h = elim (Bool-cases (ltb n 10)) [
  | inl small ↦ ground arith
  | inr large ↦
      let rest = digits_value-digits_from fuel (n / 10) ((b'0' + n % 10) ∷ out) (ground arith) in
      ground (arith, rest)
]

parse_uint_or_zero-decimal : (n : ℕ) → parse_uint_or_zero (decimal n) ≡ n
unfolding parse_uint_or_zero decimal
parse_uint_or_zero-decimal n =
    let text = digits_from (suc n) n [] in
    let full = digits_from-cons (suc n) n [] (omega arith) in
    let value : digits_value 0 text ≡ some n =
      digits_value-digits_from (suc n) n [] (omega arith) in
    ap uint_or_zero (set_string-digits text n full value)

-- Of two amounts that are written in decimal digits, the validation accepts exactly the policies that
-- are off (both are zero) or that refill above the minimum (the minimum is positive and the refill
-- amount is greater).
pub validate_gas_policy-decimal :
    (m r : ℕ) → (validate_gas_policy (decimal m) (decimal r) ≡ none) ↔ IsPolicy m r
unfolding validate_gas_policy
validate_gas_policy-decimal m r =
    ground (arith, parse_uint_or_zero-decimal m, parse_uint_or_zero-decimal r)

-- A text that `SetString` refuses counts as zero, whatever it means to the database: two such texts
-- are accepted.
pub unread_policy :
    (signer_min signer_refill : Bytes)
    → set_string signer_min ≡ none
    → set_string signer_refill ≡ none
    → validate_gas_policy signer_min signer_refill ≡ none
unfolding validate_gas_policy parse_uint_or_zero
unread_policy signer_min signer_refill h k = ground arith
